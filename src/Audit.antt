-- ===== src/Audit.antt =====
-- packages/core/src/audit: the log of what was done, each entry sealed by the hash of the one before.
pub mod HashChain
pub mod Service
pub mod Chain
pub mod Tampering
pub mod Retention
pub mod Runs
pub mod Query
mod Tests
