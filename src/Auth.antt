-- ===== src/Auth.antt =====
-- packages/core/src/auth: the guards of a request against floods and replays.
pub mod RateLimit
pub mod Quota
pub mod Nonce
pub mod Replay
pub mod Authz
pub mod CallerType
pub mod Access
pub mod Middleware
pub mod Requests
mod Tests
mod RequestTests
