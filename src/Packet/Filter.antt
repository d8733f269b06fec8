-- ===== src/Packet/Filter.antt =====
-- go/engine.go, `shouldBlockICMP` and its kin, and go/icmp_reject.go, `isUDPDstPort...`: which
-- packets from the TUN device are dropped or rejected.
pub mod Laws
use teapod_tun2socks.Prelude.{
  ℕ, ◌+◌, ◌*◌, ◌%◌, none, some, List, length, Bool, true, false, not, ◌||◌, ◌==◌, ltb,
  if◌then◌else◌, Go, ret, ◌>>=◌, index, slice,
}
use teapod_tun2socks.Key.{protocol_udp}
use teapod_tun2socks.Packet.Fields.{uint16}
use teapod_tun2socks.Packet.Ipv6.{ipv6_transport_header}

-- `isICMPEchoType`
abbrev pub is_icmp_echo_type : ℕ → Bool
is_icmp_echo_type t = t == 0 || t == 8 || t == 128 || t == 129

-- `int(pkt[0]&0x0F) * 4`
abbrev pub header_length : ℕ → ℕ
header_length first = first % 16 * 4

-- `shouldBlockICMP`
unfoldable pub should_block_icmp : List ℕ → Bool → Go Bool
should_block_icmp pkt is_ipv6 =
    if is_ipv6
    then if ltb (length pkt) 40 then ret true else (do t ← index pkt 40; ret (is_icmp_echo_type t))
    else if ltb (length pkt) 20
    then ret true
    else (do
      first ← index pkt 0
      let ihl = header_length first
      if ltb (length pkt) (ihl + 1)
          then ret true
          else (do t ← index pkt ihl; ret (is_icmp_echo_type t)))

-- `shouldBlockICMPv6`
unfoldable pub should_block_icmpv6 : List ℕ → ℕ → Go Bool
should_block_icmpv6 pkt icmp_offset =
    if ltb (length pkt) (icmp_offset + 1)
    then ret true
    else (do t ← index pkt icmp_offset; ret (is_icmp_echo_type t))

-- `isUDPDstPortIPv4`
unfoldable pub is_udp_dst_port_ipv4 : List ℕ → ℕ → Go Bool
is_udp_dst_port_ipv4 pkt port = if ltb (length pkt) 28 then ret false else (do
  proto ← index pkt 9
  if not (proto == protocol_udp) then ret false else (do
    first ← index pkt 0
    let ihl = header_length first
    if ltb ihl 20 || ltb (length pkt) (ihl + 4)
        then ret false
        else (do dst ← slice pkt (ihl + 2) (ihl + 4) >>= uint16; ret (dst == port))))

-- `isUDPDstPortIPv6`
unfoldable pub is_udp_dst_port_ipv6 : List ℕ → ℕ → Go Bool
is_udp_dst_port_ipv6 pkt port = do
  found ← ipv6_transport_header pkt
  elim found [
    | none ↦ ret false
    | some (proto, off) ↦
        if not (proto == protocol_udp) || ltb (length pkt) (off + 4)
        then ret false
        else (do dst ← slice pkt (off + 2) (off + 4) >>= uint16; ret (dst == port))
  ]
