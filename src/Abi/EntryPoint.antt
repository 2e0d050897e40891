-- ===== src/Abi/EntryPoint.antt =====
-- The binding of the contract EntryPoint: bundler/src/abi/entrypoint.go. A method that calls the
-- contract takes the state of the node, and returns it as the call leaves it.
pub mod Metadata
pub mod Transactor
pub mod Caller
pub mod Direct
pub mod Session
pub mod CallerSession
pub mod TransactorSession
pub mod Events
use pay_gas_x.Base.{ℕ, List, [], ◌∷◌, none, some, Text, text, Result, ok, err, M}
use pay_gas_x.Base.Int.{ℤ}
use pay_gas_x.Base.{Option}
use pay_gas_x.Geth.{Geth, TransactOpts, Backend}
use pay_gas_x.Abi.Types.{
  UserOperation, EntryPointUserOpInfo, Value, address, big_int, uint_32, byte_slice, user_op,
  user_ops, op_info,
}
use Metadata.{entry_point_abi}

-- `EntryPointCaller`, `EntryPointTransactor`, `EntryPointFilterer` over `*bind.BoundContract`
pub record EntryPointCaller (BoundContract : Type 0) : Type 0 where
  pub contract : BoundContract

pub record EntryPointTransactor (BoundContract : Type 0) : Type 0 where
  pub contract : BoundContract

pub record EntryPointFilterer (BoundContract : Type 0) : Type 0 where
  pub contract : BoundContract

-- `EntryPoint`
pub record EntryPoint (BoundContract : Type 0) : Type 0 where
  pub caller : EntryPointCaller BoundContract
  pub transactor : EntryPointTransactor BoundContract
  pub filterer : EntryPointFilterer BoundContract

-- `EntryPointRaw`, `EntryPointCallerRaw` and `EntryPointTransactorRaw`
pub record EntryPointRaw (BoundContract : Type 0) : Type 0 where
  pub contract : EntryPoint BoundContract

pub record EntryPointCallerRaw (BoundContract : Type 0) : Type 0 where
  pub contract : EntryPointCaller BoundContract

pub record EntryPointTransactorRaw (BoundContract : Type 0) : Type 0 where
  pub contract : EntryPointTransactor BoundContract

module _ (g : Geth) where
  open g use {Address, Client, BoundContract, Transaction, Node}

  unfoldable pub bind_entry_point :
      Address → Backend Client → Backend Client → Backend Client → Result BoundContract
  bind_entry_point addr caller transactor filterer = elim (g.abi_json entry_point_abi) [
    | ok parsed ↦ ok (g.new_bound_contract addr parsed caller transactor filterer)
    | err e ↦ err e
  ]

  unfoldable pub new_entry_point : Address → Backend Client → Result (EntryPoint BoundContract)
  new_entry_point addr backend = elim (bind_entry_point addr backend backend backend) [
    | ok c ↦ ok (record {
      caller = record { contract = c };
      transactor = record { contract = c };
      filterer = record { contract = c };
    })
    | err e ↦ err e
  ]

  unfoldable pub new_entry_point_caller :
      Address → Backend Client → Result (EntryPointCaller BoundContract)
  new_entry_point_caller addr caller = elim (bind_entry_point addr caller none none) [
    | ok c ↦ ok (record { contract = c })
    | err e ↦ err e
  ]

  unfoldable pub new_entry_point_transactor :
      Address → Backend Client → Result (EntryPointTransactor BoundContract)
  new_entry_point_transactor addr transactor = elim (bind_entry_point addr none transactor none) [
    | ok c ↦ ok (record { contract = c })
    | err e ↦ err e
  ]

  unfoldable pub new_entry_point_filterer :
      Address → Backend Client → Result (EntryPointFilterer BoundContract)
  new_entry_point_filterer addr filterer = elim (bind_entry_point addr none none filterer) [
    | ok c ↦ ok (record { contract = c })
    | err e ↦ err e
  ]
