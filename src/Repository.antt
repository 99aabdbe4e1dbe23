-- ===== src/Repository.antt =====
-- internal/repository: the SQL of the users, teams, tasks and reports, over the model of the database.
pub mod Analytics
pub mod Transaction
pub mod Users
pub mod Teams
pub mod Tasks
pub mod Changes
pub mod Soundness
pub mod Reachable
pub mod Wired
