-- ===== src/Abi/EntryPoint/CallerSession.antt =====
-- `EntryPointCallerSession` in bundler/src/abi/entrypoint.go.
use pay_gas_x.Base.{ℕ, List, Option, M}
use pay_gas_x.Base.Int.{ℤ}
use pay_gas_x.Geth.{Geth}
use pay_gas_x.Abi.Types.{UserOperation, StakeManagerDepositInfo}
use pay_gas_x.Abi.Calls.{Calls, Returned}
use pay_gas_x.Abi.EntryPoint.{EntryPointCaller}
use pay_gas_x.Abi.EntryPoint.Caller

pub record EntryPointCallerSession (g : Geth) (b : Calls g) : Type 0 where
  pub contract : EntryPointCaller g.BoundContract
  pub call_opts : b.CallOpts

module _ (g : Geth) (b : Calls g) (s : EntryPointCallerSession g b) where
  unfoldable pub balance_of : g.Address → M g.Node (Returned (Option ℤ))
  balance_of account = Caller.balance_of g b s.contract s.call_opts account

  unfoldable pub create2factory : M g.Node (Returned g.Address)
  create2factory = Caller.create2factory g b s.contract s.call_opts

  unfoldable pub deposits : g.Address → M g.Node (Returned StakeManagerDepositInfo)
  deposits account = Caller.deposits g b s.contract s.call_opts account

  unfoldable pub get_deposit_info : g.Address → M g.Node (Returned StakeManagerDepositInfo)
  get_deposit_info account = Caller.get_deposit_info g b s.contract s.call_opts account

  unfoldable pub get_request_id : UserOperation g.Address → M g.Node (Returned (List ℕ))
  get_request_id op = Caller.get_request_id g b s.contract s.call_opts op

  unfoldable pub get_sender_address : List ℕ → Option ℤ → M g.Node (Returned g.Address)
  get_sender_address init_code salt =
      Caller.get_sender_address g b s.contract s.call_opts init_code salt

  unfoldable pub get_sender_storage : g.Address → M g.Node (Returned (List (Option ℤ)))
  get_sender_storage sender = Caller.get_sender_storage g b s.contract s.call_opts sender

  unfoldable pub paymaster_stake : M g.Node (Returned (Option ℤ))
  paymaster_stake = Caller.paymaster_stake g b s.contract s.call_opts

  unfoldable pub unstake_delay_sec : M g.Node (Returned (ℕ))
  unstake_delay_sec = Caller.unstake_delay_sec g b s.contract s.call_opts
