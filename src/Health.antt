-- ===== src/Health.antt =====
-- The package health: pingers of services, the checker of a list of them, and its HTTP handler.
pub mod Pinger
pub mod Checker
pub mod Handler
mod Tests
