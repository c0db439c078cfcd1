-- ===== src/Task.antt =====
-- packages/core/src/task: the queue of background jobs.
pub mod Queue
pub mod Jobs
pub mod Attempts
mod Tests
