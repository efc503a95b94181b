-- ===== src/Lock.antt =====
-- internal/lock/redis_lock.go: the lock on Redis, and what holds under interleaved clients.
pub mod Server
pub mod Operations
pub mod Exclusion
pub mod Waiting
pub mod Renewal
pub mod Examples
mod Scenarios
