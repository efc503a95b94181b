-- ===== src/Models.antt =====
-- The data model: internal/models/job.go.
pub mod Status
pub mod Job
pub mod Valid
pub mod Schedule
pub mod Examples
