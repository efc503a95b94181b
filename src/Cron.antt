-- ===== src/Cron.antt =====
-- The cron parser of internal/scheduler/scheduler.go. A text is the list of its code points.
pub mod Text
pub mod Calendar
pub mod Schedule
pub mod Next
pub mod Numbers
pub mod Fields
mod Examples
