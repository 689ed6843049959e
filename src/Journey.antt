-- ===== src/Journey.antt =====
-- How the parts work together: an order goes in at the API, can be read there, and is announced on
-- the bus.
pub mod Readback
pub mod Service
pub mod Stable
pub mod Unique
pub mod Announcement
pub mod Quoted
