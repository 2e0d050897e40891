-- ===== src/Abi/Erc20/CallerSession.antt =====
-- `ERC20CallerSession` in bundler/src/abi/erc20.go.
use pay_gas_x.Base.{ℕ, Option, Text, M}
use pay_gas_x.Base.Int.{ℤ}
use pay_gas_x.Geth.{Geth}
use pay_gas_x.Abi.Calls.{Calls, Returned}
use pay_gas_x.Abi.Erc20.{Erc20Caller}
use pay_gas_x.Abi.Erc20.Caller

pub record Erc20CallerSession (g : Geth) (b : Calls g) : Type 0 where
  pub contract : Erc20Caller g.BoundContract
  pub call_opts : b.CallOpts

module _ (g : Geth) (b : Calls g) (s : Erc20CallerSession g b) where
  unfoldable pub allowance : g.Address → g.Address → M g.Node (Returned (Option ℤ))
  allowance owner spender = Caller.allowance g b s.contract s.call_opts owner spender

  unfoldable pub balance_of : g.Address → M g.Node (Returned (Option ℤ))
  balance_of owner = Caller.balance_of g b s.contract s.call_opts owner

  unfoldable pub decimals : M g.Node (Returned (ℕ))
  decimals = Caller.decimals g b s.contract s.call_opts

  unfoldable pub name : M g.Node (Returned Text)
  name = Caller.name g b s.contract s.call_opts

  unfoldable pub symbol : M g.Node (Returned Text)
  symbol = Caller.symbol g b s.contract s.call_opts

  unfoldable pub total_supply : M g.Node (Returned (Option ℤ))
  total_supply = Caller.total_supply g b s.contract s.call_opts
