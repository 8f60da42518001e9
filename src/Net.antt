-- ===== src/Net.antt =====
-- The network stack of net/: one child for each protocol.
pub mod Types
pub mod Checksum
pub mod Eth
pub mod Arp
pub mod Ipv4
pub mod Udp
pub mod Tcp
pub mod Dhcp
pub mod Icmp
pub mod Http
pub mod Dns
pub mod Wire
mod Examples
