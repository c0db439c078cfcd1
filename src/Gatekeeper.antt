-- ===== src/Gatekeeper.antt =====
-- packages/core/src/gatekeeper: which actions run, and what leaves the device.
pub mod Intent
pub mod Approval
pub mod Sharing
pub mod Egress
pub mod Policy
pub mod Tiers
mod Tests
