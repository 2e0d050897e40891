-- ===== src/Abi/Erc20/Session.antt =====
-- `ERC20Session` in bundler/src/abi/erc20.go: the methods of the binding with set options.
use pay_gas_x.Base.{ℕ, List, Option, Text, Result, M}
use pay_gas_x.Base.Int.{ℤ}
use pay_gas_x.Geth.{Geth, TransactOpts}
use pay_gas_x.Abi.Calls.{Calls, Returned}
use pay_gas_x.Abi.Erc20.{Erc20}
use pay_gas_x.Abi.Erc20.Caller
use pay_gas_x.Abi.Erc20.Transactor
use pay_gas_x.Abi.Erc20.Direct

pub record Erc20Session (g : Geth) (b : Calls g) : Type 0 where
  pub contract : Erc20 g.BoundContract
  pub call_opts : b.CallOpts
  pub transact_opts : TransactOpts g.Address g.Transaction

module _ (g : Geth) (b : Calls g) (s : Erc20Session g b) where
  unfoldable pub allowance : g.Address → g.Address → M g.Node (Returned (Option ℤ))
  allowance owner spender = Caller.allowance g b s.contract.caller s.call_opts owner spender

  unfoldable pub balance_of : g.Address → M g.Node (Returned (Option ℤ))
  balance_of owner = Caller.balance_of g b s.contract.caller s.call_opts owner

  unfoldable pub decimals : M g.Node (Returned (ℕ))
  decimals = Caller.decimals g b s.contract.caller s.call_opts

  unfoldable pub name : M g.Node (Returned Text)
  name = Caller.name g b s.contract.caller s.call_opts

  unfoldable pub symbol : M g.Node (Returned Text)
  symbol = Caller.symbol g b s.contract.caller s.call_opts

  unfoldable pub total_supply : M g.Node (Returned (Option ℤ))
  total_supply = Caller.total_supply g b s.contract.caller s.call_opts

  unfoldable pub approve : g.Address → Option ℤ → M g.Node (Result g.Transaction)
  approve spender value = Transactor.approve g s.contract.transactor s.transact_opts spender value

  unfoldable pub transfer : g.Address → Option ℤ → M g.Node (Result g.Transaction)
  transfer to value = Transactor.transfer g s.contract.transactor s.transact_opts to value

  unfoldable pub transfer_from : g.Address → g.Address → Option ℤ → M g.Node (Result g.Transaction)
  transfer_from from to value =
      Transactor.transfer_from g s.contract.transactor s.transact_opts from to value

  unfoldable pub fallback : List ℕ → M g.Node (Result g.Transaction)
  fallback calldata = Direct.fallback g b s.contract.transactor s.transact_opts calldata
