-- ===== src/Abi/Erc20/Transactor.antt =====
-- The methods of `ERC20Transactor` in bundler/src/abi/erc20.go: each is a call of `Transact` with the
-- method's name and arguments.
use pay_gas_x.Base.{[], ◌∷◌, Option, text, Result, M}
use pay_gas_x.Base.Int.{ℤ}
use pay_gas_x.Geth.{Geth, TransactOpts}
use pay_gas_x.Abi.Types.{address, big_int}
use pay_gas_x.Abi.Erc20.{Erc20Transactor}

module _ (g : Geth) (t : Erc20Transactor g.BoundContract) where
  open g use {Address, Transaction, Node, transact}

  unfoldable pub approve :
      TransactOpts Address Transaction → Address → Option ℤ → M Node (Result Transaction)
  approve opts spender value =
      transact t.contract opts (text "approve") (address spender ∷ big_int value ∷ [])

  unfoldable pub transfer :
      TransactOpts Address Transaction → Address → Option ℤ → M Node (Result Transaction)
  transfer opts to value =
      transact t.contract opts (text "transfer") (address to ∷ big_int value ∷ [])

  unfoldable pub transfer_from :
      TransactOpts Address Transaction → Address → Address → Option ℤ → M Node (Result Transaction)
  transfer_from opts from to value =
      transact t.contract opts (text "transferFrom")
        (address from ∷ address to ∷ big_int value ∷ [])
