-- ===== src/OrderBook.antt =====
-- domain/orderbook: the book of limit orders.
pub mod Events
pub mod Aggregate
pub mod Commands
pub mod Run
pub mod Replay
pub mod Invariant
pub mod Preservation
pub mod Matching
pub mod Cancel
