-- ===== src/Generator.antt =====
-- The generator of mocks, mock/cmd/cmg/pkg/generate.
pub mod Names
pub mod Imports
pub mod Methods
pub mod Types
pub mod Mocks
pub mod Parse
pub mod Command
pub mod Version
pub mod Main
mod Tests
