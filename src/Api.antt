-- ===== src/Api.antt =====
-- api: the HTTP handlers.
pub mod Responses
pub mod Create
pub mod Created
pub mod Path
pub mod History
pub mod Members
pub mod Times
pub mod Agreement
