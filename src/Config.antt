-- ===== src/Config.antt =====
-- The functions of bundler/src/config/main.go over the package variable `C`.
pub mod Types
pub mod Decode
pub mod Getters
pub mod Init
