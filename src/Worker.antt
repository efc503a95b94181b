-- ===== src/Worker.antt =====
-- internal/worker: the registry of handlers, the execution of a job, the poll loop, and a round of
-- it from Dequeue to executeJob.
pub mod Registry
pub mod Payloads
pub mod Handlers
pub mod Served
pub mod Execution
pub mod Success
pub mod Failures
pub mod Polling
pub mod Heartbeat
pub mod Outcomes
pub mod Measures
pub mod Counters
pub mod Rounds
pub mod Journey
pub mod Examples
mod Scenarios
