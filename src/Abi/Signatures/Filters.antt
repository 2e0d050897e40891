-- ===== src/Abi/Signatures/Filters.antt =====
-- The filters and watchers of bundler/src/abi/entrypoint.go and erc20.go against the events of the ABIs.
use pay_gas_x.Base.{ℕ, List}
use pay_gas_x.Geth.{Geth}
use pay_gas_x.Abi.Events.{Logs, UnpackLog}
use pay_gas_x.Abi.EntryPoint.Metadata.{entry_point_abi}
use pay_gas_x.Abi.Erc20.Metadata.{erc20_abi}
use pay_gas_x.Abi.EntryPoint.Events.Deposited as Deposited
use pay_gas_x.Abi.EntryPoint.Events.Deposited.{EntryPointDeposited}
use pay_gas_x.Abi.EntryPoint.Events.StakeLocked as StakeLocked
use pay_gas_x.Abi.EntryPoint.Events.StakeLocked.{EntryPointStakeLocked}
use pay_gas_x.Abi.EntryPoint.Events.StakeUnlocked as StakeUnlocked
use pay_gas_x.Abi.EntryPoint.Events.StakeUnlocked.{EntryPointStakeUnlocked}
use pay_gas_x.Abi.EntryPoint.Events.StakeWithdrawn as StakeWithdrawn
use pay_gas_x.Abi.EntryPoint.Events.StakeWithdrawn.{EntryPointStakeWithdrawn}
use pay_gas_x.Abi.EntryPoint.Events.UserOperationEvent as UserOperationEvent
use pay_gas_x.Abi.EntryPoint.Events.UserOperationEvent.{EntryPointUserOperationEvent}
use pay_gas_x.Abi.EntryPoint.Events.UserOperationRevertReason as UserOperationRevertReason
use pay_gas_x.Abi.EntryPoint.Events.UserOperationRevertReason.{EntryPointUserOperationRevertReason}
use pay_gas_x.Abi.EntryPoint.Events.Withdrawn as Withdrawn
use pay_gas_x.Abi.EntryPoint.Events.Withdrawn.{EntryPointWithdrawn}
use pay_gas_x.Abi.Erc20.Events.Approval as Approval
use pay_gas_x.Abi.Erc20.Events.Approval.{Erc20Approval}
use pay_gas_x.Abi.Erc20.Events.Transfer as Transfer
use pay_gas_x.Abi.Erc20.Events.Transfer.{Erc20Transfer}
use pay_gas_x.Abi.Signatures.Events.{Asks}

module _ (g : Geth) (l : Logs g) (contract : g.BoundContract) (opts : l.FilterOpts)
    (watch_opts : l.WatchOpts) where
  -- The nine events, with any arguments of their filters.
  pub record AskForDeclared : Type 0 where
    pub deposited :
        (unpack : UnpackLog g.BoundContract l.Log (EntryPointDeposited g.Address l.Log))
        (account : List g.Address)
        → Asks entry_point_abi g l
            (Deposited.kind g l unpack)
            contract
            opts
            watch_opts
            (Deposited.filter g l unpack (record { contract = contract }) opts account)
            (Deposited.watch g l unpack (record { contract = contract }) watch_opts account)
    pub stake_locked :
        (unpack : UnpackLog g.BoundContract l.Log (EntryPointStakeLocked g.Address l.Log))
        (account : List g.Address)
        → Asks entry_point_abi g l
            (StakeLocked.kind g l unpack)
            contract
            opts
            watch_opts
            (StakeLocked.filter g l unpack (record { contract = contract }) opts account)
            (StakeLocked.watch g l unpack (record { contract = contract }) watch_opts account)
    pub stake_unlocked :
        (unpack : UnpackLog g.BoundContract l.Log (EntryPointStakeUnlocked g.Address l.Log))
        (account : List g.Address)
        → Asks entry_point_abi g l
            (StakeUnlocked.kind g l unpack)
            contract
            opts
            watch_opts
            (StakeUnlocked.filter g l unpack (record { contract = contract }) opts account)
            (StakeUnlocked.watch g l unpack (record { contract = contract }) watch_opts account)
    pub stake_withdrawn :
        (unpack : UnpackLog g.BoundContract l.Log (EntryPointStakeWithdrawn g.Address l.Log))
        (account : List g.Address)
        → Asks entry_point_abi g l
            (StakeWithdrawn.kind g l unpack)
            contract
            opts
            watch_opts
            (StakeWithdrawn.filter g l unpack (record { contract = contract }) opts account)
            (StakeWithdrawn.watch g l unpack (record { contract = contract }) watch_opts account)
    pub user_operation_event :
        (unpack : UnpackLog g.BoundContract l.Log (EntryPointUserOperationEvent g.Address l.Log))
        (request_id : List (List ℕ)) (sender : List g.Address) (paymaster : List g.Address)
        → Asks entry_point_abi g l
            (UserOperationEvent.kind g l unpack)
            contract
            opts
            watch_opts
            (UserOperationEvent.filter g l unpack
              (record { contract = contract })
              opts
              request_id
              sender
              paymaster)
            (UserOperationEvent.watch g l unpack
              (record { contract = contract })
              watch_opts
              request_id
              sender
              paymaster)
    pub user_operation_revert_reason :
        (unpack : UnpackLog g.BoundContract l.Log
          (EntryPointUserOperationRevertReason g.Address l.Log))
        (request_id : List (List ℕ)) (sender : List g.Address)
        → Asks entry_point_abi g l
            (UserOperationRevertReason.kind g l unpack)
            contract
            opts
            watch_opts
            (UserOperationRevertReason.filter g l unpack
              (record { contract = contract })
              opts
              request_id
              sender)
            (UserOperationRevertReason.watch g l unpack
              (record { contract = contract })
              watch_opts
              request_id
              sender)
    pub withdrawn :
        (unpack : UnpackLog g.BoundContract l.Log (EntryPointWithdrawn g.Address l.Log))
        (account : List g.Address)
        → Asks entry_point_abi g l
            (Withdrawn.kind g l unpack)
            contract
            opts
            watch_opts
            (Withdrawn.filter g l unpack (record { contract = contract }) opts account)
            (Withdrawn.watch g l unpack (record { contract = contract }) watch_opts account)
    pub approval :
        (unpack : UnpackLog g.BoundContract l.Log (Erc20Approval g.Address l.Log))
        (owner : List g.Address) (spender : List g.Address)
        → Asks erc20_abi g l
            (Approval.kind g l unpack)
            contract
            opts
            watch_opts
            (Approval.filter g l unpack (record { contract = contract }) opts owner spender)
            (Approval.watch g l unpack (record { contract = contract }) watch_opts owner spender)
    pub transfer :
        (unpack : UnpackLog g.BoundContract l.Log (Erc20Transfer g.Address l.Log))
        (from_these : List g.Address) (to_these : List g.Address)
        → Asks erc20_abi g l
            (Transfer.kind g l unpack)
            contract
            opts
            watch_opts
            (Transfer.filter g l unpack (record { contract = contract }) opts from_these to_these)
            (Transfer.watch g l unpack
              (record { contract = contract })
              watch_opts
              from_these
              to_these)
