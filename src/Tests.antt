-- ===== src/Tests.antt =====
-- Concrete ledgers and runs on which the theorems of the library apply.
pub mod Data
mod Bundles
mod Transitions
mod Histories
mod Stored
mod Names
mod Claims
mod Hooks
mod Files
