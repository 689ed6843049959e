-- ===== src/Position.antt =====
-- domain/position: a user's position.
pub mod Events
pub mod Aggregate
pub mod Codec
pub mod Roundtrip
pub mod Run
pub mod Replay
pub mod Orders
