-- ===== src/Abi/EntryPoint/Session.antt =====
-- `EntryPointSession` in bundler/src/abi/entrypoint.go: the methods of the binding with set options.
use pay_gas_x.Base.{ℕ, List, Option, Result, M}
use pay_gas_x.Base.Int.{ℤ}
use pay_gas_x.Geth.{Geth, TransactOpts}
use pay_gas_x.Abi.Types.{UserOperation, EntryPointUserOpInfo, StakeManagerDepositInfo}
use pay_gas_x.Abi.Calls.{Calls, Returned}
use pay_gas_x.Abi.EntryPoint.{EntryPoint}
use pay_gas_x.Abi.EntryPoint.Caller
use pay_gas_x.Abi.EntryPoint.Transactor
use pay_gas_x.Abi.EntryPoint.Direct

pub record EntryPointSession (g : Geth) (b : Calls g) : Type 0 where
  pub contract : EntryPoint g.BoundContract
  pub call_opts : b.CallOpts
  pub transact_opts : TransactOpts g.Address g.Transaction

module _ (g : Geth) (b : Calls g) (s : EntryPointSession g b) where
  unfoldable pub balance_of : g.Address → M g.Node (Returned (Option ℤ))
  balance_of account = Caller.balance_of g b s.contract.caller s.call_opts account

  unfoldable pub create2factory : M g.Node (Returned g.Address)
  create2factory = Caller.create2factory g b s.contract.caller s.call_opts

  unfoldable pub deposits : g.Address → M g.Node (Returned StakeManagerDepositInfo)
  deposits account = Caller.deposits g b s.contract.caller s.call_opts account

  unfoldable pub get_deposit_info : g.Address → M g.Node (Returned StakeManagerDepositInfo)
  get_deposit_info account = Caller.get_deposit_info g b s.contract.caller s.call_opts account

  unfoldable pub get_request_id : UserOperation g.Address → M g.Node (Returned (List ℕ))
  get_request_id op = Caller.get_request_id g b s.contract.caller s.call_opts op

  unfoldable pub get_sender_address : List ℕ → Option ℤ → M g.Node (Returned g.Address)
  get_sender_address init_code salt =
      Caller.get_sender_address g b s.contract.caller s.call_opts init_code salt

  unfoldable pub get_sender_storage : g.Address → M g.Node (Returned (List (Option ℤ)))
  get_sender_storage sender = Caller.get_sender_storage g b s.contract.caller s.call_opts sender

  unfoldable pub paymaster_stake : M g.Node (Returned (Option ℤ))
  paymaster_stake = Caller.paymaster_stake g b s.contract.caller s.call_opts

  unfoldable pub unstake_delay_sec : M g.Node (Returned (ℕ))
  unstake_delay_sec = Caller.unstake_delay_sec g b s.contract.caller s.call_opts

  unfoldable pub add_stake : ℕ → M g.Node (Result g.Transaction)
  add_stake delay = Transactor.add_stake g s.contract.transactor s.transact_opts delay

  unfoldable pub deposit_to : g.Address → M g.Node (Result g.Transaction)
  deposit_to account = Transactor.deposit_to g s.contract.transactor s.transact_opts account

  unfoldable pub handle_ops :
      List (UserOperation g.Address) → g.Address → M g.Node (Result g.Transaction)
  handle_ops ops beneficiary =
      Transactor.handle_ops g s.contract.transactor s.transact_opts ops beneficiary

  unfoldable pub inner_handle_op :
      UserOperation g.Address → EntryPointUserOpInfo → List ℕ → M g.Node (Result g.Transaction)
  inner_handle_op op info context =
      Transactor.inner_handle_op g s.contract.transactor s.transact_opts op info context

  unfoldable pub simulate_validation : UserOperation g.Address → M g.Node (Result g.Transaction)
  simulate_validation op = Transactor.simulate_validation g s.contract.transactor s.transact_opts op

  unfoldable pub unlock_stake : M g.Node (Result g.Transaction)
  unlock_stake = Transactor.unlock_stake g s.contract.transactor s.transact_opts

  unfoldable pub withdraw_stake : g.Address → M g.Node (Result g.Transaction)
  withdraw_stake to = Transactor.withdraw_stake g s.contract.transactor s.transact_opts to

  unfoldable pub withdraw_to : g.Address → Option ℤ → M g.Node (Result g.Transaction)
  withdraw_to to amount = Transactor.withdraw_to g s.contract.transactor s.transact_opts to amount

  unfoldable pub receive : M g.Node (Result g.Transaction)
  receive = Direct.receive g b s.contract.transactor s.transact_opts
