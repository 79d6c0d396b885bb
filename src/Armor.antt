-- ===== src/Armor.antt =====
-- src/librepgp/stream-armor.c: armored streams.
pub mod Base64
pub mod Dest
pub mod Reference
pub mod Source
pub mod Convert
