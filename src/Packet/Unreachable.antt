-- ===== src/Packet/Unreachable.antt =====
-- go/icmp_reject.go, `buildICMPv4PortUnreachable` and `buildICMPv6PortUnreachable`: the answer to a
-- rejected UDP packet. The buffers are filled step by step, as in the source; `none` is nil.
pub mod Message
pub mod Ipv4
pub mod Ipv6
pub mod PseudoHeader
use teapod_tun2socks.Prelude.{
  ℕ, ◌+◌, Option, none, some, List, length, replicate, not, ◌||◌, ◌==◌, ltb, if◌then◌else◌, Go, ret,
  ◌>>=◌, index, slice, to_u16, to_u32,
}
use teapod_tun2socks.Key.{protocol_udp, protocol_icmp, protocol_icmpv6}
use teapod_tun2socks.Packet.Fields.{store, put_uint16, copy_into}
use teapod_tun2socks.Packet.Checksum.{add_words, fold_carries, complement16, internet_checksum}
use teapod_tun2socks.Packet.Filter.{header_length}

-- Lines 25 to 33: the ICMP message, which quotes the first `body_len` bytes of the packet.
unfoldable pub icmpv4_message : List ℕ → ℕ → Go (List ℕ)
icmpv4_message pkt body_len = do
  let icmp_len = 8 + body_len
  m ← store (replicate icmp_len 0) 0 3
  m ← store m 1 3
  body ← slice pkt 0 body_len
  m ← copy_into m 8 icmp_len body
  put_uint16 m 2 (internet_checksum m)

-- Lines 35 to 48: the IPv4 datagram around the message.
unfoldable pub ipv4_datagram : List ℕ → List ℕ → ℕ → Go (List ℕ)
ipv4_datagram pkt icmp icmp_len = do
  let total_len = 20 + icmp_len
  out ← store (replicate total_len 0) 0 0x45
  out ← put_uint16 out 2 (to_u16 total_len)
  out ← store out 8 64
  out ← store out 9 protocol_icmp
  dst ← slice pkt 16 20
  out ← copy_into out 12 16 dst
  src ← slice pkt 12 16
  out ← copy_into out 16 20 src
  header ← slice out 0 20
  out ← put_uint16 out 10 (internet_checksum header)
  copy_into out 20 total_len icmp

-- `buildICMPv4PortUnreachable`
unfoldable pub build_icmpv4_port_unreachable : List ℕ → Go (Option (List ℕ))
build_icmpv4_port_unreachable pkt = if ltb (length pkt) 28 then ret none else (do
  proto ← index pkt 9
  if not (proto == protocol_udp) then ret none else (do
    first ← index pkt 0
    let ihl = header_length first
    if ltb ihl 20 || ltb (length pkt) (ihl + 8) then ret none else (do
      let body_len = ihl + 8
      icmp ← icmpv4_message pkt body_len
      out ← ipv4_datagram pkt icmp (8 + body_len)
      ret (some out))))

-- Lines 64 to 73: the ICMPv6 message with its checksum still zero.
unfoldable pub icmpv6_message : List ℕ → ℕ → Go (List ℕ)
icmpv6_message pkt body_len = do
  let icmp_len = 8 + body_len
  m ← store (replicate icmp_len 0) 0 1
  m ← store m 1 4
  body ← slice pkt 0 body_len
  copy_into m 8 icmp_len body

-- Lines 75 to 82: the IPv6 header, in a buffer for the whole datagram.
unfoldable pub ipv6_header : List ℕ → ℕ → Go (List ℕ)
ipv6_header pkt icmp_len = do
  let total_len = 40 + icmp_len
  out ← store (replicate total_len 0) 0 0x60
  out ← put_uint16 out 4 (to_u16 icmp_len)
  out ← store out 6 protocol_icmpv6
  out ← store out 7 64
  dst ← slice pkt 24 40
  out ← copy_into out 8 24 dst
  src ← slice pkt 8 24
  copy_into out 24 40 src

-- Lines 86 to 104: the checksum over the pseudo-header (both addresses of `out`, the length and the
-- next header) and the message.
unfoldable pub icmpv6_checksum : List ℕ → List ℕ → ℕ → Go ℕ
icmpv6_checksum out icmp icmp_len = do
  src ← slice out 8 24
  dst ← slice out 24 40
  let sum = add_words (add_words 0 src) dst
  let sum = to_u32 (sum + icmp_len)
  let sum = to_u32 (sum + protocol_icmpv6)
  let sum = add_words sum icmp
  ret (complement16 (fold_carries sum))

-- `buildICMPv6PortUnreachable`
unfoldable pub build_icmpv6_port_unreachable : List ℕ → Go (Option (List ℕ))
build_icmpv6_port_unreachable pkt = if ltb (length pkt) 48 then ret none else (do
  proto ← index pkt 6
  if not (proto == protocol_udp) then ret none else (do
    let body_len = if ltb (length pkt) 48 then length pkt else 48
    let icmp_len = 8 + body_len
    icmp ← icmpv6_message pkt body_len
    out ← ipv6_header pkt icmp_len
    sum ← icmpv6_checksum out icmp icmp_len
    icmp ← put_uint16 icmp 2 sum
    out ← copy_into out 40 (40 + icmp_len) icmp
    ret (some out)))
