-- ===== src/Entity.antt =====
-- The rules of number portability: package entity (internal/entity).
pub mod Fault
pub mod Errors
pub mod Request
pub mod Step
pub mod Authorization
pub mod Eligibility
pub mod Incident
