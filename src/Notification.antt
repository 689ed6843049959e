-- ===== src/Notification.antt =====
-- application/notification: who is told of the end of an order.
pub mod Service
pub mod Delivery
pub mod Keeps
pub mod Once
pub mod Start
