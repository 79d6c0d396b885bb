-- ===== src/Write.antt =====
-- src/librepgp/stream-write.c: the destinations that packets are streamed through.
pub mod Partial
pub mod Packet
pub mod Literal
