-- ===== src/Api.antt =====
-- The HTTP API of the scheduler: internal/scheduler/api.go.
pub mod Responses
pub mod Handlers
pub mod Listing
pub mod Middleware
pub mod Pages
pub mod Answers
pub mod Submitted
mod Examples
