-- ===== src/Sync.antt =====
-- packages/core/src/sync: what a connector fetched before, and how old its items may be.
pub mod Dedup
pub mod Recency
pub mod LivingWindow
pub mod Zones
mod Tests
