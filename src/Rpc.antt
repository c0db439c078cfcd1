-- ===== src/Rpc.antt =====
-- packages/core/src/rpc: the caches of replies and nonces of relayed requests.
pub mod Evict
pub mod Idempotency
pub mod Keys
pub mod Replies
pub mod NonceReplay
pub mod Sightings
mod Tests
