-- ===== src/Order.antt =====
pub mod Events
pub mod Codec
pub mod Roundtrip
pub mod Readable
pub mod Aggregate
pub mod Commands
pub mod Run
pub mod Emits
pub mod Replay
pub mod Versions
pub mod Lifecycle
pub mod Validity
