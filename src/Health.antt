-- ===== src/Health.antt =====
-- The package health.
pub mod State
pub mod Polling
