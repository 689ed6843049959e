-- ===== src/Repository.antt =====
pub mod Store
pub mod Agreement
