-- ===== src/Abi.antt =====
-- The generated Go bindings of the contracts: bundler/src/abi.
pub mod Types
pub mod Signatures
pub mod Calls
pub mod Events
pub mod EntryPoint
pub mod Erc20
