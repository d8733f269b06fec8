-- ===== src/Tests/Packet.antt =====
-- Packets for go/icmp_reject.go and the filters of go/engine.go.
use teapod_tun2socks.Prelude.{
  ℕ, true, false, List, [], ◌∷◌, ◌++◌, ◌≡◌, refl, ret, panic, some, none, arith, ◌⊎◌, ◌↔◌,
  replicate, length,
}
use teapod_tun2socks.Packet.Unreachable.{build_icmpv6_port_unreachable}
use teapod_tun2socks.Packet.Unreachable.Ipv6.{is_answered_ipv6}
use teapod_tun2socks.Packet.Unreachable.PseudoHeader.{IsAnswerIpv6, build_icmpv6_verifies}
use teapod_tun2socks.Packet.Ipv6.{ipv6_transport_header}
use teapod_tun2socks.Packet.Ipv6.Chain.{upper, options, PacketChain, ipv6_transport_header_complete}
use teapod_tun2socks.Packet.Filter.{should_block_icmp}
use teapod_tun2socks.Packet.Filter.Laws.{should_block_icmp_panics}
use teapod_tun2socks.Packet.Unreachable.{build_icmpv4_port_unreachable}
use teapod_tun2socks.Packet.Unreachable.Ipv4.{is_answered, IsAnswer, build_icmpv4_answers}

-- An IPv6 header of 40 bytes whose next header is `next`.
abbrev ipv6_start : ℕ → List ℕ
ipv6_start next = 0x60 ∷ 0 ∷ 0 ∷ 0 ∷ 0 ∷ 16 ∷ next ∷ 64 ∷ replicate 32 1

-- Hop-by-Hop options of eight bytes, then UDP to port 443.
abbrev with_options : List ℕ
with_options =
    ipv6_start 0 ++ (17 ∷ 0 ∷ 1 ∷ 4 ∷ 0 ∷ 0 ∷ 0 ∷ 0 ∷ 192 ∷ 0 ∷ 1 ∷ 187 ∷ 0 ∷ 8 ∷ 0 ∷ 0 ∷ [])

with_options-Chain : PacketChain with_options 1 17 48
with_options-Chain = (
  omega arith,
  options refl (omega arith)
      (upper refl (λ e. absurd (omega arith)) (λ e. absurd (omega arith)) (omega arith)),
)

ipv6_transport_header_complete_example : ipv6_transport_header with_options ≡ ret (some (17, 48))
ipv6_transport_header_complete_example =
    ipv6_transport_header_complete with_options 1 17 48 with_options-Chain

should_block_icmp_panics_example :
    (should_block_icmp (replicate 40 0) true ≡ panic) ↔ (length (replicate {A = ℕ} 40 0) ≡ 40)
should_block_icmp_panics_example = should_block_icmp_panics (replicate 40 0)

-- UDP over IPv4 from port 49152 to port 443, with four bytes of payload.
abbrev quic : List ℕ
quic =
    0x45 ∷ 0 ∷ 0 ∷ 32 ∷ 0 ∷ 0 ∷ 0 ∷ 0 ∷ 64 ∷ 17 ∷ 0 ∷ 0 ∷ 10 ∷ 0 ∷ 0 ∷ 1 ∷ 1 ∷ 2 ∷ 3 ∷ 4 ∷ 192 ∷ 0
    ∷ 1 ∷ 187 ∷ 0 ∷ 12 ∷ 0 ∷ 0 ∷ 5 ∷ 6 ∷ 7 ∷ 8 ∷ []

build_icmpv4_answers_example :
    ((is_answered quic ≡ false) × (build_icmpv4_port_unreachable quic ≡ ret none))
    ⊎ ((out : List ℕ) × (is_answered quic ≡ true)
        × (build_icmpv4_port_unreachable quic ≡ ret (some out))
        × IsAnswer quic out)
build_icmpv4_answers_example = build_icmpv4_answers quic (omega arith)

-- UDP over IPv6 to port 443, with an empty payload.
abbrev quic_ipv6 : List ℕ
quic_ipv6 = ipv6_start 17 ++ (192 ∷ 0 ∷ 1 ∷ 187 ∷ 0 ∷ 8 ∷ 0 ∷ 0 ∷ [])

build_icmpv6_verifies_example :
    ((is_answered_ipv6 quic_ipv6 ≡ false) × (build_icmpv6_port_unreachable quic_ipv6 ≡ ret none))
    ⊎ ((out : List ℕ) × (is_answered_ipv6 quic_ipv6 ≡ true)
        × (build_icmpv6_port_unreachable quic_ipv6 ≡ ret (some out))
        × IsAnswerIpv6 quic_ipv6 out)
build_icmpv6_verifies_example = build_icmpv6_verifies quic_ipv6 (omega arith)
