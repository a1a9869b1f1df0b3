-- ===== src/Examples.antt =====
-- Concrete data and runs of the program.
pub mod Data
pub mod LowerHex
pub mod Http
pub mod Postgres
pub mod Rows
pub mod Stopping
pub mod Syncs
pub mod Ranges
pub mod Queries
pub mod Setting
pub mod Retrying
