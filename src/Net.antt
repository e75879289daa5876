-- ===== src/Net.antt =====
-- src/net and src/transport/udp.cpp: IPv4, ICMP and UDP.
pub mod Ipv4
pub mod Host
pub mod Icmp
pub mod Udp
pub mod Receive
