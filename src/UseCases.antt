-- ===== src/UseCases.antt =====
pub mod Create
pub mod Complete
pub mod Accepted
pub mod Creation
pub mod Completion
