-- ===== src/Queue.antt =====
-- The job queue on Redis: internal/queue/redis.go.
pub mod Redis
pub mod Memory
pub mod Operations
pub mod Dequeue
pub mod Background
pub mod Delivery
pub mod Failure
pub mod Plan
pub mod Delayed
pub mod Reclaim
pub mod Letters
pub mod Pool
pub mod Calls
pub mod Contents
pub mod Writing
pub mod Refine
pub mod Order
pub mod Draining
pub mod Examples
pub mod Scenarios
