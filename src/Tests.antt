-- ===== src/Tests.antt =====
-- A small platform on which the theorems are tried: two users, two problems, a contest and a
-- submission that waits for its two results.
pub mod Services
pub mod World
pub mod Grading
pub mod Interleaving
pub mod Pages
pub mod Accounts
pub mod Administration
pub mod Frontend
mod Races
mod Forms
mod Seeding
mod Web
mod Server
mod Verdict
