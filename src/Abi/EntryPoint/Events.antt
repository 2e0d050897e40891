-- ===== src/Abi/EntryPoint/Events.antt =====
-- The events of the contract EntryPoint: bundler/src/abi/entrypoint.go.
pub mod Deposited
pub mod StakeLocked
pub mod StakeUnlocked
pub mod StakeWithdrawn
pub mod UserOperationEvent
pub mod UserOperationRevertReason
pub mod Withdrawn
