-- ===== src/Transport.antt =====
-- packages/core/src/transport: the queue of outgoing messages and its retries.
pub mod Outbox
pub mod Retry
pub mod Capacity
pub mod Credit
pub mod Attempts
pub mod Pass
mod Tests
