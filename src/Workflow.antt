-- ===== src/Workflow.antt =====
-- packages/core/src/workflow: the durable work items, their store and the service over it.
pub mod Domain
pub mod Repo
pub mod Lease
pub mod Finish
pub mod Delivery
pub mod Query
pub mod Service
pub mod Lifecycle
pub mod Atomicity
pub mod Moves
pub mod Transitions
pub mod Claims
pub mod Availability
pub mod EventIds
pub mod Bridge
pub mod Exclusion
pub mod Responses
pub mod Resend
mod BridgeTests
mod Tests
