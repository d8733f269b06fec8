-- ===== src/Engine/ReadLoop/Evasion.antt =====
-- What slips past the filters of the read loop: a chain that the walk gives up on.
use teapod_tun2socks.Prelude.{
  ℕ, ◌≤◌, ◌≡◌, refl, List, false, Bool-cases, inl, inr, none, ret, leb, arith, if◌then◌else◌,
}
use teapod_tun2socks.Packet.Ipv6.{ipv6_transport_header}
use teapod_tun2socks.Packet.Ipv6.Chain.{PacketChain, ipv6_transport_header_complete}
use teapod_tun2socks.Packet.Filter.{is_udp_dst_port_ipv6}
use teapod_tun2socks.Engine.ReadLoop.{Engine, ipv6_protocol, inject, is_echo_v6, handle_ipv6}

echo_missed :
    (e : Engine) (pkt : List ℕ)
    → ipv6_transport_header pkt ≡ ret none
    → is_echo_v6 e pkt ≡ ret false
unfolding is_echo_v6
echo_missed e pkt lost = elim (Bool-cases e.allow_icmp) [
  | inl on ↦ rw on refl
  | inr off ↦ rw (off, lost) refl
]

quic_missed :
    (e : Engine) (pkt : List ℕ)
    → ipv6_transport_header pkt ≡ ret none
    → (if e.block_quic then is_udp_dst_port_ipv6 pkt 443 else ret false) ≡ ret false
unfolding is_udp_dst_port_ipv6
quic_missed e pkt lost = elim (Bool-cases e.block_quic) [
  | inl on ↦ rw (on, lost) refl
  | inr off ↦ rw off refl
]

-- A packet with eight or more extension headers is injected unchanged, whatever its upper-layer
-- protocol is and whatever the filters are set to: an ICMPv6 echo and a QUIC packet, too.
pub handle_ipv6_evaded :
    (e : Engine) (pkt : List ℕ) (n proto end : ℕ)
    → 8 ≤ n
    → PacketChain pkt n proto end
    → handle_ipv6 e pkt ≡ ret (inject e ipv6_protocol pkt)
unfolding handle_ipv6
handle_ipv6_evaded e pkt n proto end many c =
    let long : leb n 7 ≡ false = ground arith in
    let lost : ipv6_transport_header pkt ≡ ret none =
      rw long at (ipv6_transport_header_complete pkt n proto end c) in
    rw (echo_missed e pkt lost, quic_missed e pkt lost) refl
