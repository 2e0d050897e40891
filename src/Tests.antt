-- ===== src/Tests.antt =====
-- Runs of the bundler over a small chain, and the theorems at concrete data.
mod Instances
mod Laws
mod Runs
mod Util
mod Config
mod Eth
mod ToAbi
mod Handlers
mod Server
mod Events
mod Json
mod Written
mod Signatures
mod Calls
mod Starts
mod Bodies
