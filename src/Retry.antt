-- ===== src/Retry.antt =====
-- The retry engine: internal/retry/retry.go.
pub mod Policy
pub mod Backoff
pub mod Executor
pub mod Breaker
pub mod Examples
