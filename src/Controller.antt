-- ===== src/Controller.antt =====
-- bundler/src/controller/main.go.
pub mod Types
pub mod Request
pub mod ToAbi
pub mod Responses
pub mod Bodies
pub mod Handlers
