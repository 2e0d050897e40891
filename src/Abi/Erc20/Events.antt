-- ===== src/Abi/Erc20/Events.antt =====
-- The events of the contract ERC20: bundler/src/abi/erc20.go.
pub mod Approval
pub mod Transfer
