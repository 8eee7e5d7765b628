-- ===== src/Usecase/Creation.antt =====
-- The creation interactors (internal/usecase/creation).
pub mod Inputs
pub mod Individual
pub mod Enterprise
pub mod Restitution
pub mod Fleet
pub mod Written
pub mod Total
