-- ===== src/Trace.antt =====
-- The package trace: spans over an OpenTelemetry tracer, its options and its middleware.
pub mod Span
pub mod Setup
pub mod Middleware
mod Tests
