-- ===== src/Engine/ReadLoop/Admitted.antt =====
-- Which packets the filters of the read loop let through.
use teapod_tun2socks.Prelude.{
  not, leb, ℕ, ◌+◌, ◌≤◌, ◌/◌, ◌≡◌, ◌≢◌, refl, List, length, Bool, true, false, ◌&&◌, ◌==◌, ltb,
  ◌||◌, Option, none, some, Go, ret, be16, arith, Bool-cases, inl, inr, index_lem,
}
use teapod_tun2socks.Packet.Fields.{uint16-slice, byte}
use teapod_tun2socks.Packet.Filter.{is_icmp_echo_type}
use teapod_tun2socks.Packet.Filter.Laws.{
  is_echo_ipv4, is_udp_to, should_block_icmp_ipv4, should_block_icmpv6_lem,
}
use teapod_tun2socks.Packet.Ipv6.Chain.{
  PacketChain, ipv6_transport_header_sound, ipv6_transport_header_complete,
}
use teapod_tun2socks.Engine.ReadLoop.{
  Engine, Protocol, ipv4_protocol, ipv6_protocol, reject, inject, is_echo_v4, is_echo_v6,
}
use teapod_tun2socks.Packet.Filter.{is_udp_dst_port_ipv6}
use teapod_tun2socks.Packet.Ipv6.{ipv6_transport_header}

-- An IPv4 packet that holds its protocol field and is a ping.
abbrev pub is_ping_v4 : List ℕ → Bool
is_ping_v4 pkt = ltb 9 (length pkt) && byte pkt 9 == 1 && is_echo_ipv4 pkt

pub is_echo_v4_lem :
    (e : Engine) (pkt : List ℕ) → is_echo_v4 e pkt ≡ ret (not e.allow_icmp && is_ping_v4 pkt)
unfolding is_echo_v4
is_echo_v4_lem e pkt = ground (arith, index_lem pkt 9 0, should_block_icmp_ipv4 pkt)

-- No chain of at most seven extension headers leads to an ICMPv6 echo.
abbrev pub NoPing : List ℕ → Type 0
NoPing pkt =
    (n end : ℕ)
    → n ≤ 7
    → PacketChain pkt n 58 end
    → (ltb (length pkt) (end + 1) || is_icmp_echo_type (byte pkt end)) ≡ false

-- No chain of at most seven extension headers leads to UDP for port 443.
abbrev pub NoQuic : List ℕ → Type 0
NoQuic pkt =
    (n end : ℕ)
    → n ≤ 7
    → PacketChain pkt n 17 end
    → end + 4 ≤ length pkt
    → be16 (byte pkt (end + 2)) (byte pkt (end + 3)) ≢ 443

-- What the filters let through: no ping if pings are not allowed, and no UDP to port 443 if QUIC is
-- blocked.
abbrev pub IsAdmitted : Bool → Bool → Protocol × List ℕ → Type 0
IsAdmitted allow_icmp block_quic (ipv4_protocol, pkt) =
    (byte pkt 0 / 16 ≡ 4)
    × (not allow_icmp && is_ping_v4 pkt ≡ false)
    × (block_quic && is_udp_to pkt 443 ≡ false)
IsAdmitted allow_icmp block_quic (ipv6_protocol, pkt) =
    (byte pkt 0 / 16 ≡ 6) × (allow_icmp ≡ false → NoPing pkt) × (block_quic ≡ true → NoQuic pkt)

-- A packet is dropped, rejected or injected, and injected only if the filters admit it.
pub data Handled (e : Engine) (pkt : List ℕ) : Go Engine → Type 0 where
  dropped : Handled e pkt (ret e)
  rejected : (resp : Option (List ℕ)) → e.block_quic ≡ true → Handled e pkt (ret (reject e resp))
  injected :
      (proto : Protocol)
      → IsAdmitted e.allow_icmp e.block_quic (proto, pkt)
      → Handled e pkt (ret (inject e proto pkt))

-- A walk that finds nothing: no short chain exists.
no_chain :
    (pkt : List ℕ) (n proto end : ℕ)
    → ipv6_transport_header pkt ≡ ret none
    → n ≤ 7
    → PacketChain pkt n proto end
    → ⊥
no_chain pkt n proto end h few c =
    let few' : leb n 7 ≡ true = ground arith in
    let found : ipv6_transport_header pkt ≡ ret (some (proto, end)) =
      rw few' at (ipv6_transport_header_complete pkt n proto end c) in
    cc (h, found)

-- A walk that finds a header finds the one that every short chain leads to.
only_chain :
    (pkt : List ℕ) (n proto end p off : ℕ)
    → ipv6_transport_header pkt ≡ ret (some (p, off))
    → n ≤ 7
    → PacketChain pkt n proto end
    → (p ≡ proto) × (off ≡ end)
only_chain pkt n proto end p off h few c =
    let few' : leb n 7 ≡ true = ground arith in
    let found : ipv6_transport_header pkt ≡ ret (some (proto, end)) =
      rw few' at (ipv6_transport_header_complete pkt n proto end c) in
    ground arith

pub ping_v6 :
    (e : Engine) (pkt : List ℕ)
    → (b : Bool) × (is_echo_v6 e pkt ≡ ret b) × (b ≡ false → e.allow_icmp ≡ false → NoPing pkt)
unfolding is_echo_v6
ping_v6 e pkt = elim (Bool-cases e.allow_icmp) [
  | inl allowed ↦ (false, rw allowed refl, λ _ denied. absurd (cc (allowed, denied)))
  | inr denied ↦ elim (ipv6_transport_header_sound pkt) [
    | inl lost ↦ (
      false,
      rw (denied, lost) refl,
      λ _ _ n end few c. absurd (no_chain pkt n 58 end lost few c),
    )
    | inr (p, off, _, found, _, _, _, _) ↦ elim (Bool-cases (p == 58)) [
      | inl icmp ↦ (
        (ltb (length pkt) (off + 1) || is_icmp_echo_type (byte pkt off)),
        rw (denied, found, icmp) (should_block_icmpv6_lem pkt off),
        λ silent _ n end few c. rw ((only_chain pkt n 58 end p off found few c).1) at silent,
      )
      | inr other ↦ (
        false,
        rw (denied, found, other) refl,
        λ _ _ n end few c.
            let same : p ≡ 58 = (only_chain pkt n 58 end p off found few c).0 in
            absurd (ground arith),
      )
    ]
  ]
]

pub udp_v6 :
    (pkt : List ℕ) → (b : Bool) × (is_udp_dst_port_ipv6 pkt 443 ≡ ret b) × (b ≡ false → NoQuic pkt)
unfolding is_udp_dst_port_ipv6
udp_v6 pkt = elim (ipv6_transport_header_sound pkt) [
  | inl lost ↦ (false, rw lost refl, λ _ n end few c _ _. absurd (no_chain pkt n 17 end lost few c))
  | inr (p, off, _, found, _, _, _, _) ↦
      elim (Bool-cases (not (p == 17) || ltb (length pkt) (off + 4))) [
        | inl other ↦ (
          false,
          rw (found, other) refl,
          λ _ n end few c long _.
              let (same, there) = only_chain pkt n 17 end p off found few c in
              absurd (ground arith),
        )
        | inr udp ↦
            let next_byte : off + 2 + 1 ≡ off + 3 = omega arith in
            (
              be16 (byte pkt (off + 2)) (byte pkt (off + 3)) == 443,
              rw
                  (
                    found,
                    udp,
                    uint16-slice pkt (off + 2) (off + 4) (omega arith) (ground arith),
                    next_byte,
                  )
                  refl,
              λ silent n end few c long quic.
                  let there : off ≡ end = (only_chain pkt n 17 end p off found few c).1 in
                  let other : (be16 (byte pkt (end + 2)) (byte pkt (end + 3)) == 443) ≡ false =
                    rw there at silent in
                  absurd (ground arith),
            )
      ]
]
