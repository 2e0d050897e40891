-- ===== src/Abi/Erc20.antt =====
-- The binding of the contract ERC20: bundler/src/abi/erc20.go. A method that calls the contract takes
-- the state of the node, and returns it as the call leaves it.
pub mod Metadata
pub mod Transactor
pub mod Caller
pub mod Direct
pub mod Session
pub mod CallerSession
pub mod TransactorSession
pub mod Events
use pay_gas_x.Base.{none, Result, ok, err}
use pay_gas_x.Geth.{Geth, Backend}
use Metadata.{erc20_abi}

-- `ERC20Caller`, `ERC20Transactor`, `ERC20Filterer` over `*bind.BoundContract`
pub record Erc20Caller (BoundContract : Type 0) : Type 0 where
  pub contract : BoundContract

pub record Erc20Transactor (BoundContract : Type 0) : Type 0 where
  pub contract : BoundContract

pub record Erc20Filterer (BoundContract : Type 0) : Type 0 where
  pub contract : BoundContract

-- `ERC20`
pub record Erc20 (BoundContract : Type 0) : Type 0 where
  pub caller : Erc20Caller BoundContract
  pub transactor : Erc20Transactor BoundContract
  pub filterer : Erc20Filterer BoundContract

-- `ERC20Raw`, `ERC20CallerRaw` and `ERC20TransactorRaw`
pub record Erc20Raw (BoundContract : Type 0) : Type 0 where
  pub contract : Erc20 BoundContract

pub record Erc20CallerRaw (BoundContract : Type 0) : Type 0 where
  pub contract : Erc20Caller BoundContract

pub record Erc20TransactorRaw (BoundContract : Type 0) : Type 0 where
  pub contract : Erc20Transactor BoundContract

module _ (g : Geth) where
  open g use {Address, Client, BoundContract, Transaction, Node}

  unfoldable pub bind_erc20 :
      Address → Backend Client → Backend Client → Backend Client → Result BoundContract
  bind_erc20 addr caller transactor filterer = elim (g.abi_json erc20_abi) [
    | ok parsed ↦ ok (g.new_bound_contract addr parsed caller transactor filterer)
    | err e ↦ err e
  ]

  unfoldable pub new_erc20 : Address → Backend Client → Result (Erc20 BoundContract)
  new_erc20 addr backend = elim (bind_erc20 addr backend backend backend) [
    | ok c ↦ ok (record {
      caller = record { contract = c };
      transactor = record { contract = c };
      filterer = record { contract = c };
    })
    | err e ↦ err e
  ]

  unfoldable pub new_erc20_caller : Address → Backend Client → Result (Erc20Caller BoundContract)
  new_erc20_caller addr caller = elim (bind_erc20 addr caller none none) [
    | ok c ↦ ok (record { contract = c })
    | err e ↦ err e
  ]

  unfoldable pub new_erc20_transactor :
      Address → Backend Client → Result (Erc20Transactor BoundContract)
  new_erc20_transactor addr transactor = elim (bind_erc20 addr none transactor none) [
    | ok c ↦ ok (record { contract = c })
    | err e ↦ err e
  ]

  unfoldable pub new_erc20_filterer :
      Address → Backend Client → Result (Erc20Filterer BoundContract)
  new_erc20_filterer addr filterer = elim (bind_erc20 addr none none filterer) [
    | ok c ↦ ok (record { contract = c })
    | err e ↦ err e
  ]
