-- ===== src/Abi/Erc20/Caller.antt =====
-- The methods of `ERC20Caller` in bundler/src/abi/erc20.go, which read the contract.
use pay_gas_x.Base.{ℕ, [], ◌∷◌, Option, none, Text, text, M}
use pay_gas_x.Base.Int.{ℤ}
use pay_gas_x.Geth.{Geth}
use pay_gas_x.Abi.Types.{address}
use pay_gas_x.Abi.Calls.{Calls, Returned, read}
use pay_gas_x.Abi.Erc20.{Erc20Caller}

module _ (g : Geth) (b : Calls g) (c : Erc20Caller g.BoundContract) where
  unfoldable pub allowance : b.CallOpts → g.Address → g.Address → M g.Node (Returned (Option ℤ))
  allowance opts owner spender =
      read g b none b.to_big_int c.contract opts (text "allowance")
        (address owner ∷ address spender ∷ [])

  unfoldable pub balance_of : b.CallOpts → g.Address → M g.Node (Returned (Option ℤ))
  balance_of opts owner =
      read g b none b.to_big_int c.contract opts (text "balanceOf") (address owner ∷ [])

  unfoldable pub decimals : b.CallOpts → M g.Node (Returned (ℕ))
  decimals opts = read g b 0 b.to_uint_8 c.contract opts (text "decimals") []

  unfoldable pub name : b.CallOpts → M g.Node (Returned Text)
  name opts = read g b [] b.to_string c.contract opts (text "name") []

  unfoldable pub symbol : b.CallOpts → M g.Node (Returned Text)
  symbol opts = read g b [] b.to_string c.contract opts (text "symbol") []

  unfoldable pub total_supply : b.CallOpts → M g.Node (Returned (Option ℤ))
  total_supply opts = read g b none b.to_big_int c.contract opts (text "totalSupply") []
