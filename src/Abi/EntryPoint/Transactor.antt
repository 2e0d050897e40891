-- ===== src/Abi/EntryPoint/Transactor.antt =====
-- The methods of `EntryPointTransactor` in bundler/src/abi/entrypoint.go: each is a call of
-- `Transact` with the method's name and arguments.
use pay_gas_x.Base.{ℕ, List, [], ◌∷◌, Option, text, Result, M}
use pay_gas_x.Base.Int.{ℤ}
use pay_gas_x.Geth.{Geth, TransactOpts}
use pay_gas_x.Abi.Types.{
  UserOperation, EntryPointUserOpInfo, address, big_int, uint_32, byte_slice, user_op, user_ops,
  op_info,
}
use pay_gas_x.Abi.EntryPoint.{EntryPointTransactor}

module _ (g : Geth) (t : EntryPointTransactor g.BoundContract) where
  open g use {Address, Transaction, Node, transact}

  unfoldable pub add_stake : TransactOpts Address Transaction → ℕ → M Node (Result Transaction)
  add_stake opts unstake_delay_sec =
      transact t.contract opts (text "addStake") (uint_32 unstake_delay_sec ∷ [])

  unfoldable pub deposit_to :
      TransactOpts Address Transaction → Address → M Node (Result Transaction)
  deposit_to opts account = transact t.contract opts (text "depositTo") (address account ∷ [])

  unfoldable pub handle_ops :
      TransactOpts Address Transaction
      → List (UserOperation Address)
      → Address
      → M Node (Result Transaction)
  handle_ops opts ops beneficiary =
      transact t.contract opts (text "handleOps") (user_ops ops ∷ address beneficiary ∷ [])

  unfoldable pub inner_handle_op :
      TransactOpts Address Transaction
      → UserOperation Address
      → EntryPointUserOpInfo
      → List ℕ
      → M Node (Result Transaction)
  inner_handle_op opts op info context =
      transact t.contract opts (text "innerHandleOp")
        (user_op op ∷ op_info info ∷ byte_slice context ∷ [])

  unfoldable pub simulate_validation :
      TransactOpts Address Transaction → UserOperation Address → M Node (Result Transaction)
  simulate_validation opts op =
      transact t.contract opts (text "simulateValidation") (user_op op ∷ [])

  unfoldable pub unlock_stake : TransactOpts Address Transaction → M Node (Result Transaction)
  unlock_stake opts = transact t.contract opts (text "unlockStake") []

  unfoldable pub withdraw_stake :
      TransactOpts Address Transaction → Address → M Node (Result Transaction)
  withdraw_stake opts withdraw_address =
      transact t.contract opts (text "withdrawStake") (address withdraw_address ∷ [])

  unfoldable pub withdraw_to :
      TransactOpts Address Transaction → Address → Option ℤ → M Node (Result Transaction)
  withdraw_to opts withdraw_address withdraw_amount =
      transact t.contract opts (text "withdrawTo")
        (address withdraw_address ∷ big_int withdraw_amount ∷ [])
