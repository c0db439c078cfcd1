-- ===== src/D2d.antt =====
-- packages/core/src/d2d: messages between devices.
pub mod Families
pub mod Gates
pub mod Egress
pub mod Quarantine
pub mod QuarantineIds
pub mod Unquarantine
pub mod Receive
pub mod Replay
pub mod Admission
pub mod Effects
pub mod Send
pub mod Outgoing
pub mod Settling
pub mod Answers
mod Tests
mod PipelineTests
mod SendTests
