-- ===== src/Devices.antt =====
-- packages/core/src/devices: the devices that are paired.
pub mod Registry
pub mod Revocation
mod Tests
