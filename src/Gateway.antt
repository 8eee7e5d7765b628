-- ===== src/Gateway.antt =====
-- The gateways of internal/adapter/gateway/postgres: each method is the SQL that it sends.
pub mod Otps
pub mod Numbers
pub mod Reference
pub mod Ranges
pub mod Confirmations
pub mod Requests
pub mod Reverses
pub mod Incidents
pub mod Pages
pub mod Queries
pub mod Sandbox
pub mod Users
