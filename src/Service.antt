-- ===== src/Service.antt =====
-- packages/core/src/service: the windows that let strangers ask a public service and answer one, and
-- the decisions that use them.
pub mod QueryWindow
pub mod Bodies
pub mod Config
pub mod Bypass
pub mod OneShot
pub mod Reserve
mod Tests
