-- ===== src/Examples.antt =====
-- The model at work on a database in memory.
pub mod Memory
pub mod Database
pub mod Data
pub mod Outside
pub mod Setup
mod Runs
mod Witnesses
mod Safety
mod Requests
mod Progress
mod Start
mod Server
