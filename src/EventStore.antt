-- ===== src/EventStore.antt =====
-- infrastructure/eventstore: the store of events in PostgreSQL.
pub mod ErrorText
pub mod Substring
pub mod Serializer
pub mod Postgres
pub mod Atomicity
pub mod Selection
pub mod From
