-- ===== src/Controller.antt =====
-- internal/adapter/controller: what the responses show.

pub mod Instant
pub mod Creation
pub mod Pagination
pub mod Respond
pub mod RequestView
pub mod Queues
pub mod Acts
pub mod Incidents
pub mod Submissions
pub mod Catalogs
pub mod Login
mod Tests
