-- ===== src/Packet/Filter/Laws.antt =====
-- What the filters say of every packet.
use teapod_tun2socks.Prelude.{
  ℕ, ◌+◌, ◌≡◌, ◌↔◌, List, length, Bool, true, false, ◌||◌, ◌==◌, ltb, ret, panic, index_lem,
  index_out, be16, arith, leb, ◌&&◌,
}
use teapod_tun2socks.Packet.Fields.{byte, uint16-slice}
use teapod_tun2socks.Packet.Filter.{
  is_icmp_echo_type, header_length, should_block_icmp, should_block_icmpv6, is_udp_dst_port_ipv4,
}

-- An IPv4 packet whose ICMP type is missing, or is an echo request or reply.
abbrev pub is_echo_ipv4 : List ℕ → Bool
is_echo_ipv4 pkt =
    ltb (length pkt) 20
    || ltb (length pkt) (header_length (byte pkt 0) + 1)
    || is_icmp_echo_type (byte pkt (header_length (byte pkt 0)))

-- On IPv4 the filter never panics, and blocks an ICMP packet exactly if the packet ends before its
-- ICMP type or the type is that of an echo.
pub should_block_icmp_ipv4 : (pkt : List ℕ) → should_block_icmp pkt false ≡ ret (is_echo_ipv4 pkt)
unfolding should_block_icmp
should_block_icmp_ipv4 pkt =
    ground (arith, index_lem pkt 0 0, index_lem pkt (header_length (byte pkt 0)) 0)

-- Called for IPv6, the filter panics exactly on a packet of 40 bytes: its guard admits that length,
-- and the type is read behind the end.
pub should_block_icmp_panics :
    (pkt : List ℕ) → (should_block_icmp pkt true ≡ panic) ↔ (length pkt ≡ 40)
unfolding should_block_icmp
should_block_icmp_panics pkt =
    (λ h. ground (arith, index_lem pkt 40 0), λ h. ground (arith, index_out pkt 40))

pub should_block_icmpv6_lem :
    (pkt : List ℕ) (off : ℕ)
    → should_block_icmpv6 pkt off
      ≡ ret (ltb (length pkt) (off + 1) || is_icmp_echo_type (byte pkt off))
unfolding should_block_icmpv6
should_block_icmpv6_lem pkt off = ground (arith, index_lem pkt off 0)

-- The packet is long enough, carries UDP behind a header of 20 bytes or more, and is meant for the
-- port.
abbrev pub is_udp_to : List ℕ → ℕ → Bool
is_udp_to pkt port =
    leb 28 (length pkt)
    && byte pkt 9 == 17
    && leb 20 (header_length (byte pkt 0))
    && leb (header_length (byte pkt 0) + 4) (length pkt)
    && be16 (byte pkt (header_length (byte pkt 0) + 2)) (byte pkt (header_length (byte pkt 0) + 3))
      == port

-- `isUDPDstPortIPv4` never panics, and says whether the packet is long enough, carries UDP behind a
-- header of 20 bytes or more, and is meant for the port.
pub is_udp_dst_port_ipv4_lem :
    (pkt : List ℕ) (port : ℕ) → is_udp_dst_port_ipv4 pkt port ≡ ret (is_udp_to pkt port)
unfolding is_udp_dst_port_ipv4
is_udp_dst_port_ipv4_lem pkt port =
    let h = header_length (byte pkt 0) in
    ground (arith, index_lem pkt 9 0, index_lem pkt 0 0, uint16-slice pkt (h + 2) (h + 4))
