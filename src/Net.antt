-- ===== src/Net.antt =====
-- The packet path of the NAT box: net/*.c.
pub mod Bytes
pub mod Checksum
pub mod Forward
pub mod Fragment
pub mod Fwd
pub mod Icmp
pub mod Input
pub mod Nat
pub mod NdCache
pub mod Neighbor
pub mod Packet
pub mod Reassembly
pub mod Router
mod Tests
