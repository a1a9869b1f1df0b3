-- ===== src/Store/Postgres.antt =====
-- internal/store/postgres*.go: the PostgreSQL store.
-- `Columns` has the conversions between Go's values and the columns, `Rows` the rows that are sent and
-- scanned, `Validation` the checks of an update.
pub mod Columns
pub mod Rows
pub mod Validation
pub mod Driver
pub mod Codec
pub mod Tables
pub mod Session
pub mod Update
pub mod Reads
pub mod Events
