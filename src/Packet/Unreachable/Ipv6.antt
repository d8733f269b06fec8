-- ===== src/Packet/Unreachable/Ipv6.antt =====
-- `buildICMPv6PortUnreachable`: when it answers, and what.
use mathlib.Core.List.{append_assoc}
use teapod_tun2socks.Prelude.{
  slice, ℕ, ◌+◌, ◌/◌, ◌≤◌, ◌≡◌, refl, sym, List, [], ◌∷◌, ◌++◌, length, take, drop, replicate, set,
  Bool, false, ◌&&◌, ◌==◌, leb, ltb, some, none, if◌then◌else◌, ret, index_lem, to_u8, to_u32,
  arith, length-take, length-drop, length-append, Bool-cases, inl, inr,
}
use teapod_tun2socks.Packet.Fields.{
  byte, store_lem, put_uint16_lem, copy_into-append, copy_into_end, slice_lem, take-append,
  drop-append, copy_into,
}
use teapod_tun2socks.Packet.Checksum.{add_words, fold_carries, complement16}
use teapod_tun2socks.Packet.Unreachable.{
  build_icmpv6_port_unreachable, icmpv6_message, ipv6_header, icmpv6_checksum,
}
use teapod_tun2socks.Packet.Unreachable.Message.{icmp, copy_quoted}

-- The sixteen bytes of an address.
abbrev pub address : List ℕ → ℕ → List ℕ
address pkt lo = take 16 (drop lo pkt)

pub length-address : (pkt : List ℕ) (lo : ℕ) → lo + 16 ≤ length pkt → length (address pkt lo) ≡ 16
length-address pkt lo h = omega (arith, length-take {0} 16 (drop lo pkt), length-drop {0} lo pkt)

-- An IPv6 header (RFC 8200) with a hop limit of 64 in front of an ICMPv6 message.
abbrev pub ipv6 : ℕ → List ℕ → List ℕ → List ℕ → List ℕ
ipv6 size src dst payload =
    0x60 ∷ 0 ∷ 0 ∷ 0 ∷ to_u8 (size / 256) ∷ to_u8 size ∷ 58 ∷ 64 ∷ (src ++ (dst ++ payload))

abbrev front : List ℕ → List ℕ
front l = 0x60 ∷ 0 ∷ 0 ∷ 0 ∷ 0 ∷ 56 ∷ 58 ∷ 64 ∷ l

abbrev zeros16 : List ℕ
zeros16 = replicate 16 0

abbrev zeros56 : List ℕ
zeros56 = replicate 56 0

icmpv6_message_lem :
    (pkt : List ℕ) → 48 ≤ length pkt → icmpv6_message pkt 48 ≡ ret (icmp 1 4 0 (take 48 pkt))
unfolding icmpv6_message
icmpv6_message_lem pkt h =
    let z : List ℕ = replicate 48 0 in
    let quoted = take 48 pkt in
    let long : length quoted ≡ 48 = omega (arith, length-take {0} 48 pkt) in
    rw
      (
        store_lem (icmp 0 0 0 z) 0 1 (omega arith),
        store_lem (icmp 1 0 0 z) 1 4 (omega arith),
        slice_lem pkt 0 48 (omega arith) h,
        copy_quoted 1 4 quoted 48 long,
      )
      refl

ipv6_header_lem :
    (pkt : List ℕ)
    → 48 ≤ length pkt
    → ipv6_header pkt 56 ≡ ret (ipv6 56 (address pkt 24) (address pkt 8) zeros56)
unfolding ipv6_header
ipv6_header_lem pkt h =
    let src = address pkt 24 in
    let dst = address pkt 8 in
    let start : List ℕ = replicate 96 0 in
    let b1 : List ℕ = set start 0 0x60 in
    let b2 : List ℕ = set (set b1 4 0) 5 56 in
    let b3 : List ℕ = set b2 6 58 in
    rw
      (
        store_lem start 0 0x60 (omega arith),
        put_uint16_lem b1 4 56 (omega arith),
        store_lem b2 6 58 (omega arith),
        store_lem b3 7 64 (omega arith),
        slice_lem pkt 24 40 (omega arith) (omega arith),
        copy_into-append (front []) zeros16 (zeros16 ++ zeros56) src 8 24 refl refl
            (length-address pkt 24 (omega arith)),
        slice_lem pkt 8 24 (omega arith) (omega arith),
        copy_into-append (front src) zeros16 zeros56 dst 24 40
            (omega (arith, length-address pkt 24 (omega arith)))
            (omega (arith, length-address pkt 24 (omega arith)))
            (length-address pkt 8 (omega arith)),
      )
      refl

slice-front : (src rest : List ℕ) → length src ≡ 16 → slice (front (src ++ rest)) 8 24 ≡ ret src
slice-front src rest h =
    let all : take 16 (src ++ rest) ≡ src = rw (← h) (take-append src rest) in
    rw
      (
        slice_lem (front (src ++ rest)) 8 24 (omega arith)
            (omega (arith, length-append {0} src rest)),
        all,
      )
      refl

slice_second :
    (src dst rest : List ℕ)
    → length src ≡ 16
    → length dst ≡ 16
    → slice (front (src ++ (dst ++ rest))) 24 40 ≡ ret dst
slice_second src dst rest h k =
    let later : drop 16 (src ++ (dst ++ rest)) ≡ dst ++ rest =
      drop-append src (dst ++ rest) 16 (sym h) in
    let all : take 16 (dst ++ rest) ≡ dst = rw (← k) (take-append dst rest) in
    rw
      (
        slice_lem (front (src ++ (dst ++ rest))) 24 40 (omega arith)
            (omega (arith, length-append {0} src (dst ++ rest), length-append {0} dst rest)),
        later,
        all,
      )
      refl

-- The sum over the pseudo-header (both addresses, the length and the next header) and the message.
abbrev pub pseudo_sum : List ℕ → List ℕ → List ℕ → ℕ
pseudo_sum src dst message =
    add_words (to_u32 (to_u32 (add_words (add_words 0 src) dst + 56) + 58)) message

icmpv6_checksum_lem :
    (src dst rest message : List ℕ)
    → length src ≡ 16
    → length dst ≡ 16
    → icmpv6_checksum (ipv6 56 src dst rest) message 56
      ≡ ret (complement16 (fold_carries (pseudo_sum src dst message)))
unfolding icmpv6_checksum
icmpv6_checksum_lem src dst rest message h k =
    rw (slice-front src (dst ++ rest) h, slice_second src dst rest h k) refl

copy_message :
    (src dst message : List ℕ)
    → length src ≡ 16
    → length dst ≡ 16
    → length message ≡ 56
    → copy_into (ipv6 56 src dst zeros56) 40 96 message ≡ ret (ipv6 56 src dst message)
copy_message src dst message h k l =
    rw (← append_assoc src dst zeros56, ← append_assoc src dst message)
      (copy_into_end (front (src ++ dst)) zeros56 message 40 96
        (omega (arith, length-append {0} src dst)) (omega (arith, length-append {0} src dst)) l)

-- The packet is UDP over IPv6, with no extension headers, and holds its UDP header.
abbrev pub is_answered_ipv6 : List ℕ → Bool
is_answered_ipv6 pkt = leb 48 (length pkt) && byte pkt 6 == 17

abbrev pub quoted_ipv6 : List ℕ → List ℕ
quoted_ipv6 pkt = take 48 pkt

-- The datagram back to the source of the packet.
abbrev pub answer_ipv6 : List ℕ → List ℕ
answer_ipv6 pkt =
    let src = address pkt 24 in
    let dst = address pkt 8 in
    let sum = complement16 (fold_carries (pseudo_sum src dst (icmp 1 4 0 (quoted_ipv6 pkt)))) in
    ipv6 56 src dst (icmp 1 4 sum (quoted_ipv6 pkt))

build_answered :
    (pkt : List ℕ)
    → 48 ≤ length pkt
    → byte pkt 6 ≡ 17
    → build_icmpv6_port_unreachable pkt ≡ ret (some (answer_ipv6 pkt))
unfolding build_icmpv6_port_unreachable
build_answered pkt h udp =
    let src = address pkt 24 in
    let dst = address pkt 8 in
    let quoted = quoted_ipv6 pkt in
    let hs = length-address pkt 24 (omega arith) in
    let hd = length-address pkt 8 (omega arith) in
    let sum = complement16 (fold_carries (pseudo_sum src dst (icmp 1 4 0 quoted))) in
    let short : ltb (length pkt) 48 ≡ false = ground arith in
    let long : length quoted ≡ 48 = omega (arith, length-take {0} 48 pkt) in
    rw
      (
        short,
        index_lem pkt 6 0 (omega arith),
        udp,
        icmpv6_message_lem pkt h,
        ipv6_header_lem pkt h,
        icmpv6_checksum_lem src dst zeros56 (icmp 1 4 0 quoted) hs hd,
        put_uint16_lem (icmp 1 4 0 quoted) 2 sum (omega arith),
        copy_message src dst (icmp 1 4 sum quoted) hs hd (omega arith),
      )
      refl

-- The builder on every packet.
pub build_icmpv6_answers :
    (pkt : List ℕ)
    → build_icmpv6_port_unreachable pkt
      ≡ ret (if is_answered_ipv6 pkt then some (answer_ipv6 pkt) else none)
unfolding build_icmpv6_port_unreachable
build_icmpv6_answers pkt = elim (Bool-cases (is_answered_ipv6 pkt)) [
  | inl yes_answer ↦ rw yes_answer (build_answered pkt (ground arith) (ground arith))
  | inr no_answer ↦ ground (arith, index_lem pkt 6 0)
]
