-- ===== src/Outbox.antt =====
-- infrastructure/outbox: what publishes the events of the outbox table.
pub mod Publisher
pub mod Ticks
pub mod Sent
pub mod Backlog
pub mod Drain
