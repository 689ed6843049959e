-- ===== src/Messaging.antt =====
-- infrastructure/messaging: the connection to the broker and what consumes from it.
pub mod RabbitMq
pub mod Consumer
