-- ===== src/Packet.antt =====
-- go/icmp_reject.go and the read loop of go/engine.go: what happens to one packet from the TUN
-- device. A packet is the list of its bytes.
pub mod Fields
pub mod Checksum
pub mod Ipv6
pub mod Filter
pub mod Unreachable
