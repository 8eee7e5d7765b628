-- ===== src/Framework.antt =====
-- What internal/framework sets up: identifiers, the clock and the configuration.
pub mod Identifier
pub mod Clock
pub mod Text
pub mod Config
pub mod EnvFile
pub mod Seed
pub mod Folders
mod Tests
