-- ===== src/Staging.antt =====
-- packages/core/src/staging: the inbox of everything that enters the vault.
pub mod StateMachine
pub mod Inbox
pub mod Multi
pub mod Sweep
pub mod Steps
pub mod Calls
pub mod Loops
pub mod Legal
pub mod Claims
pub mod Privacy
pub mod Drain
mod Tests
