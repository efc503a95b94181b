-- ===== src/Store.antt =====
-- internal/store/postgres.go, on the tables of migrations/001_init.sql.
pub mod Tables
pub mod Jobs
pub mod Rows
pub mod Lookup
pub mod Trail
pub mod Listing
pub mod History
pub mod Audit
pub mod Heartbeats
pub mod Soundness
pub mod Reachable
pub mod Examples
mod Scenarios
