-- ===== src/Metrics.antt =====
-- The package metrics: Prometheus metrics of HTTP requests and gRPC calls.
pub mod Options
pub mod Registry
pub mod Grpc
pub mod Length
pub mod Http
pub mod Rpc
pub mod Gauge
pub mod Names
pub mod Handler
mod Tests
