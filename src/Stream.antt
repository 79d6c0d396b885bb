-- ===== src/Stream.antt =====
-- src/librepgp/stream-common.c and stream-common.h: sources and destinations.
pub mod Source
pub mod Line
pub mod Memory
pub mod Ops
pub mod Dest
