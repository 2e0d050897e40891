-- ===== src/GoLib.antt =====
-- What the bundler uses of the Go standard library.
pub mod Base64
pub mod BigInt
pub mod Marshal
pub mod Json
pub mod JsonValue
pub mod Scanner
pub mod Decode
pub mod Print
