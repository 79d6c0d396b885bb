-- ===== src/Parse.antt =====
-- src/librepgp/stream-parse.c: the sources that packets are streamed from.

pub mod Partial
pub mod Packet
pub mod Literal
