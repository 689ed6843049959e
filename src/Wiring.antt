-- ===== src/Wiring.antt =====
-- cmd/main.go: how the service starts, its routes, and the mocks of the external services.
pub mod Mocks
pub mod Startup
pub mod Routes
