-- ===== src/Packet/Unreachable/Ipv4.antt =====
-- `buildICMPv4PortUnreachable`: when it answers, and that the answer is a good IPv4 datagram.
use teapod_tun2socks.Prelude.{get_or-IsByte, false, ◌<◌}
use teapod_tun2socks.Packet.Checksum.Laws.{
  word_sum, word_sum-le, checksum_verifies, internet_checksum-lt,
}
use teapod_tun2socks.Prelude.{
  ℕ, ◌+◌, ◌*◌, ◌∷◌, ◌≡◌, none, some, List, [], length, take, Bool, ◌&&◌, Bool-cases, ◌⊎◌, inl, inr,
  ◌==◌, leb, if◌then◌else◌, ret, index_lem, to_u16, arith, length-take, AllBytes, be16, IsByte, ◌≤◌,
  drop, true, AllBytes-take, refl,
}
use teapod_tun2socks.Packet.Fields.{byte, four}
use teapod_tun2socks.Key.{protocol_icmp}
use teapod_tun2socks.Packet.Checksum.{internet_checksum}
use teapod_tun2socks.Packet.Filter.{header_length}
use teapod_tun2socks.Packet.Unreachable.{build_icmpv4_port_unreachable}
use teapod_tun2socks.Packet.Unreachable.Message.{icmp, icmpv4_message_lem, ipv4, ipv4_datagram_lem}

-- The packet is UDP over IPv4, with its whole header and the eight bytes behind it.
abbrev pub is_answered : List ℕ → Bool
is_answered pkt =
    leb 28 (length pkt)
    && byte pkt 9 == 17
    && leb 20 (header_length (byte pkt 0))
    && leb (header_length (byte pkt 0) + 8) (length pkt)

-- The header of the packet and the eight bytes behind it.
abbrev pub quoted : List ℕ → List ℕ
quoted pkt = take (header_length (byte pkt 0) + 8) pkt

abbrev message : List ℕ → List ℕ
message pkt = icmp 3 3 (internet_checksum (icmp 3 3 0 (quoted pkt))) (quoted pkt)

abbrev total : List ℕ → ℕ
total pkt = to_u16 (20 + (8 + (header_length (byte pkt 0) + 8)))

abbrev header : List ℕ → ℕ → List ℕ → List ℕ
header pkt checksum payload = ipv4 (total pkt) checksum (four pkt 16) (four pkt 12) payload

abbrev answer : List ℕ → List ℕ
answer pkt = header pkt (internet_checksum (header pkt 0 [])) (message pkt)

pub build_icmpv4_lem :
    (pkt : List ℕ)
    → build_icmpv4_port_unreachable pkt ≡ ret (if is_answered pkt then some (answer pkt) else none)
unfolding build_icmpv4_port_unreachable
build_icmpv4_lem pkt =
    let n = header_length (byte pkt 0) + 8 in
    ground (
      arith,
      index_lem pkt 9 0,
      index_lem pkt 0 0,
      icmpv4_message_lem pkt n,
      ipv4_datagram_lem pkt (message pkt) (8 + n),
      length-take {0} n pkt,
    )

-- The checksum field adds to the sum of a message what it holds.
pub icmp_fills :
    (kind code c : ℕ) (body : List ℕ)
    → c < 65536
    → word_sum (icmp kind code c body) ≡ word_sum (icmp kind code 0 body) + c
unfolding word_sum
icmp_fills kind code c body h = omega arith

pub icmp_verifies :
    (kind code : ℕ) (body : List ℕ)
    → IsByte kind
    → IsByte code
    → AllBytes body
    → length body ≤ 60000
    → internet_checksum (icmp kind code (internet_checksum (icmp kind code 0 body)) body) ≡ 0
icmp_verifies kind code body hk hc hb short =
    let m = icmp kind code 0 body in
    let c = internet_checksum m in
    let bytes : AllBytes m = (
      hk,
      (
        hc,
        (
          omega arith,
          (omega arith, (omega arith, (omega arith, (omega arith, (omega arith, hb))))),
        ),
      ),
    ) in
    checksum_verifies m (icmp kind code c body) (omega (arith, word_sum-le m bytes))
      (icmp_fills kind code c body (internet_checksum-lt m))

header_fills :
    (pkt : List ℕ) (c : ℕ) → c < 65536 → word_sum (header pkt c []) ≡ word_sum (header pkt 0 []) + c
unfolding word_sum
header_fills pkt c h = omega arith

header_small : (pkt : List ℕ) → AllBytes pkt → word_sum (header pkt 0 []) + 65535 < 4294967296
header_small pkt h =
    let bytes : AllBytes (header pkt 0 []) = omega (
      arith,
      get_or-IsByte pkt 12 h,
      get_or-IsByte pkt 13 h,
      get_or-IsByte pkt 14 h,
      get_or-IsByte pkt 15 h,
      get_or-IsByte pkt 16 h,
      get_or-IsByte pkt 17 h,
      get_or-IsByte pkt 18 h,
      get_or-IsByte pkt 19 h,
    ) in
    omega (arith, word_sum-le (header pkt 0 []) bytes)

-- A good answer to the packet: version 4 and a header of five words, no service class, no fragment,
-- a time to live of 64, and ICMP as its protocol.
pub record IsAnswer (pkt out : List ℕ) : Type 0 where
  pub version : byte out 0 ≡ 4 * 16 + 5
  pub service : byte out 1 ≡ 0
  pub unfragmented : take 4 (drop 4 out) ≡ 0 ∷ 0 ∷ 0 ∷ 0 ∷ []
  pub time_to_live : byte out 8 ≡ 64
  pub protocol : byte out 9 ≡ protocol_icmp
  pub whole : be16 (byte out 2) (byte out 3) ≡ length out
  pub from : four out 12 ≡ four pkt 16
  pub to : four out 16 ≡ four pkt 12
  pub header_sum : internet_checksum (take 20 out) ≡ 0
  pub message_sum : internet_checksum (drop 20 out) ≡ 0
  pub port_unreachable : (byte out 20 ≡ 3) × (byte out 21 ≡ 3)
  pub unused : take 4 (drop 24 out) ≡ 0 ∷ 0 ∷ 0 ∷ 0 ∷ []
  pub quotes : drop 28 out ≡ quoted pkt

answer-IsAnswer : (pkt : List ℕ) → AllBytes pkt → is_answered pkt ≡ true → IsAnswer pkt (answer pkt)
answer-IsAnswer pkt bytes ok =
    let n = header_length (byte pkt 0) + 8 in
    let long : length (quoted pkt) ≡ n = ground (arith, length-take {0} n pkt) in
    record {
      version = refl;
      service = refl;
      unfragmented = refl;
      time_to_live = refl;
      protocol = refl;
      whole = omega arith;
      from = refl;
      to = refl;
      header_sum =
          checksum_verifies (header pkt 0 []) (header pkt (internet_checksum (header pkt 0 [])) [])
            (header_small pkt bytes)
            (header_fills pkt (internet_checksum (header pkt 0 []))
              (internet_checksum-lt (header pkt 0 [])));
      message_sum =
          icmp_verifies 3 3 (quoted pkt) (omega arith) (omega arith) (AllBytes-take n pkt bytes)
            (omega arith);
      port_unreachable = (refl, refl);
      unused = refl;
      quotes = refl;
    }

-- For every packet the builder returns, and it answers exactly the UDP packets that hold their
-- whole header and eight bytes more. The answer is one IPv4 datagram: version 4, a header of twenty
-- bytes without options, no fragment, a time to live of 64, and protocol ICMP; its length field is
-- its length, it goes from the packet's destination to the packet's source, the checksum of its header
-- and the checksum of its ICMP message come out right at the receiver, and the message is a Port
-- Unreachable that quotes the header of the packet and the eight bytes behind it.
pub build_icmpv4_answers :
    (pkt : List ℕ)
    → AllBytes pkt
    → ((is_answered pkt ≡ false) × (build_icmpv4_port_unreachable pkt ≡ ret none))
      ⊎ ((out : List ℕ) × (is_answered pkt ≡ true)
          × (build_icmpv4_port_unreachable pkt ≡ ret (some out))
          × IsAnswer pkt out)
build_icmpv4_answers pkt bytes = elim (Bool-cases (is_answered pkt)) [
  | inl ok ↦ inr (answer pkt, ok, rw ok at (build_icmpv4_lem pkt), answer-IsAnswer pkt bytes ok)
  | inr no_udp ↦ inl (no_udp, rw no_udp at (build_icmpv4_lem pkt))
]
