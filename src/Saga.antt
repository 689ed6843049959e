-- ===== src/Saga.antt =====
pub mod World
pub mod Processed
pub mod Compensation
pub mod Accept
pub mod Price
pub mod Swap
pub mod Complete
pub mod Steps
pub mod Skips
pub mod Redelivery
pub mod Keeps
pub mod Marks
pub mod Once
pub mod Panics
pub mod Start
pub mod Request
pub mod Quote
