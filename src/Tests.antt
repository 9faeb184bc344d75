-- ===== src/Tests.antt =====
-- Concrete inputs on which the definitions run and the theorems are applied.
pub mod Data
pub mod Queue
pub mod Records
pub mod Access
pub mod Tasks
pub mod Loops
pub mod Cleaning
pub mod Retrying
pub mod Outgoing
pub mod Sources
pub mod Requests
pub mod Sessions
