-- ===== src/Pairing.antt =====
-- packages/core/src/pairing: the codes that a person types to pair a device.
pub mod Crockford
pub mod Symbols
pub mod Encoder
pub mod Codes
pub mod Typos
pub mod Ceremony
pub mod SingleUse
mod Tests
