-- ===== src/Debug.antt =====
-- The package debug: the switch of debug logs and its middleware, the mounts, and the payloads' logs.
pub mod Options
pub mod Mounts
pub mod Switch
pub mod Payloads
mod Tests
