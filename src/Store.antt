-- ===== src/Store.antt =====
-- The database (migrations/) and the programs that run against it.
pub mod Schema
pub mod Session
pub mod Table
pub mod Outcomes
pub mod Keeps
pub mod Runs
pub mod Calm
