-- ===== src/Storage.antt =====
-- app/storage.py: the class Storage, a module for each group of its methods. A method takes the values
-- that it draws from outside: the time `now`, and a fresh identifier.
pub mod Tasks
pub mod Jobs
pub mod Messages
pub mod Permissions
pub mod Events
pub mod Users
pub mod Challenges
pub mod Projects
pub mod Runners
pub mod Cleanup
