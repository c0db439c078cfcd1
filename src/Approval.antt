-- ===== src/Approval.antt =====
-- packages/core/src/approval: what the user has approved.
pub mod Manager
pub mod Grants
pub mod Decisions
mod Tests
