-- ===== src/Weather.antt =====
-- The example application, example/weather/services: its clients of web services and its services.
pub mod Net
pub mod Weathergov
pub mod Ipapi
pub mod Front
mod Tests
