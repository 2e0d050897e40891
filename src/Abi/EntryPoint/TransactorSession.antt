-- ===== src/Abi/EntryPoint/TransactorSession.antt =====
-- `EntryPointTransactorSession` in bundler/src/abi/entrypoint.go.
use pay_gas_x.Base.{ℕ, List, Option, Result, M}
use pay_gas_x.Base.Int.{ℤ}
use pay_gas_x.Geth.{Geth, TransactOpts}
use pay_gas_x.Abi.Types.{UserOperation, EntryPointUserOpInfo}
use pay_gas_x.Abi.Calls.{Calls}
use pay_gas_x.Abi.EntryPoint.{EntryPointTransactor}
use pay_gas_x.Abi.EntryPoint.Transactor
use pay_gas_x.Abi.EntryPoint.Direct

pub record EntryPointTransactorSession (g : Geth) : Type 0 where
  pub contract : EntryPointTransactor g.BoundContract
  pub transact_opts : TransactOpts g.Address g.Transaction

module _ (g : Geth) (b : Calls g) (s : EntryPointTransactorSession g) where
  unfoldable pub add_stake : ℕ → M g.Node (Result g.Transaction)
  add_stake delay = Transactor.add_stake g s.contract s.transact_opts delay

  unfoldable pub deposit_to : g.Address → M g.Node (Result g.Transaction)
  deposit_to account = Transactor.deposit_to g s.contract s.transact_opts account

  unfoldable pub handle_ops :
      List (UserOperation g.Address) → g.Address → M g.Node (Result g.Transaction)
  handle_ops ops beneficiary = Transactor.handle_ops g s.contract s.transact_opts ops beneficiary

  unfoldable pub inner_handle_op :
      UserOperation g.Address → EntryPointUserOpInfo → List ℕ → M g.Node (Result g.Transaction)
  inner_handle_op op info context =
      Transactor.inner_handle_op g s.contract s.transact_opts op info context

  unfoldable pub simulate_validation : UserOperation g.Address → M g.Node (Result g.Transaction)
  simulate_validation op = Transactor.simulate_validation g s.contract s.transact_opts op

  unfoldable pub unlock_stake : M g.Node (Result g.Transaction)
  unlock_stake = Transactor.unlock_stake g s.contract s.transact_opts

  unfoldable pub withdraw_stake : g.Address → M g.Node (Result g.Transaction)
  withdraw_stake to = Transactor.withdraw_stake g s.contract s.transact_opts to

  unfoldable pub withdraw_to : g.Address → Option ℤ → M g.Node (Result g.Transaction)
  withdraw_to to amount = Transactor.withdraw_to g s.contract s.transact_opts to amount

  unfoldable pub receive : M g.Node (Result g.Transaction)
  receive = Direct.receive g b s.contract s.transact_opts
