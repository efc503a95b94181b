-- ===== src/Scheduler.antt =====
-- The operations of Core (internal/scheduler/scheduler.go) on a queue and the tables of the store.
pub mod Jobs
pub mod Loops
pub mod Ticks
pub mod Recurring
pub mod Instances
pub mod Submission
pub mod Retries
pub mod Examples
pub mod Scenarios
