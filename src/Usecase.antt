-- ===== src/Usecase.antt =====
-- The interactors of internal/usecase.
mod Tests
pub mod Otp
pub mod Transition
pub mod Engine
pub mod Platform
pub mod Acceptance
pub mod Porting
pub mod Creation
pub mod Incidents
pub mod Reverses
pub mod Queries
pub mod Sandbox
pub mod Auth
pub mod Reference
pub mod Ranges
