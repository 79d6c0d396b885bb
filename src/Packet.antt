-- ===== src/Packet.antt =====
-- src/librepgp/stream-packet.c: the packets that are read and written whole.
pub mod Input
pub mod Length
pub mod Body
pub mod Mpi
pub mod SkSesskey
pub mod Alg
pub mod PkSesskey
pub mod OnePass
pub mod Signature
pub mod Transfer
