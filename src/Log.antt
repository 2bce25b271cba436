-- ===== src/Log.antt =====
-- The package log: values and key/value pairs, slices of pairs in shared memory, loggers with their
-- buffers, the operations on log contexts, and the formats of entries.
pub mod Value
pub mod Memory
pub mod Truncate
pub mod Logger
pub mod Operations
pub mod Location
pub mod Clients
pub mod Servers
pub mod Adapters
pub mod Formats
pub mod Tests
