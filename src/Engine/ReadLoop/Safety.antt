-- ===== src/Engine/ReadLoop/Safety.antt =====
-- What the read loop lets through to the network stack.
use teapod_tun2socks.Prelude.{
  [], ◌∷◌, ◌∙◌, if◌then◌else◌, not, ℕ, ◌/◌, ◌≡◌, refl, List, Bool, true, false, ◌&&◌, ◌==◌, Go, ret,
  arith, Bool-cases, inl, inr, index_lem,
}
use teapod_tun2socks.Packet.Fields.{byte}
use teapod_tun2socks.Packet.Filter.{is_udp_dst_port_ipv4}
use teapod_tun2socks.Packet.Filter.Laws.{is_udp_to, is_udp_dst_port_ipv4_lem}
use teapod_tun2socks.Packet.Unreachable.Ipv6.{build_icmpv6_answers}
use teapod_tun2socks.Packet.Unreachable.Ipv4.{build_icmpv4_lem}
use teapod_tun2socks.Engine.ReadLoop.{
  Engine, Protocol, ipv4_protocol, ipv6_protocol, reject, inject, handle_ipv4, handle_ipv6,
  handle_packet, count, Round, stopped, read_error, packet, tun_read_loop,
}
use teapod_tun2socks.Packet.Filter.{is_udp_dst_port_ipv6}
use teapod_tun2socks.Engine.ReadLoop.Admitted.{
  is_ping_v4, is_echo_v4_lem, NoQuic, IsAdmitted, Handled, dropped, rejected, injected, ping_v6,
  udp_v6,
}

quic_v4 :
    (e : Engine) (pkt : List ℕ)
    → (if e.block_quic then is_udp_dst_port_ipv4 pkt 443 else ret false)
      ≡ ret (e.block_quic && is_udp_to pkt 443)
quic_v4 e pkt = ground (arith, is_udp_dst_port_ipv4_lem pkt 443)

handle_ipv4-Handled :
    (e : Engine) (pkt : List ℕ) → byte pkt 0 / 16 ≡ 4 → Handled e pkt (handle_ipv4 e pkt)
unfolding handle_ipv4
handle_ipv4-Handled e pkt v = elim (Bool-cases (not e.allow_icmp && is_ping_v4 pkt)) [
  | inl ping ↦ rw (is_echo_v4_lem e pkt, ping) dropped
  | inr no_ping ↦ elim (Bool-cases (e.block_quic && is_udp_to pkt 443)) [
    | inl quic ↦
        rw (is_echo_v4_lem e pkt, no_ping, quic_v4 e pkt, quic, build_icmpv4_lem pkt)
          (rejected _ (ground arith))
    | inr no_quic ↦
        rw (is_echo_v4_lem e pkt, no_ping, quic_v4 e pkt, no_quic)
          (injected ipv4_protocol (v, no_ping, no_quic))
  ]
]

quic_v6 :
    (e : Engine) (pkt : List ℕ)
    → (b : Bool) × ((if e.block_quic then is_udp_dst_port_ipv6 pkt 443 else ret false) ≡ ret b)
      × (b ≡ false → e.block_quic ≡ true → NoQuic pkt)
      × (b ≡ true → e.block_quic ≡ true)
quic_v6 e pkt = elim (Bool-cases e.block_quic) [
  | inl on ↦
      let (b, ran, clear) = udp_v6 pkt in (b, rw (on, ran) refl, λ silent _. clear silent, λ _. on)
  | inr off ↦ (false, rw off refl, λ _ on. absurd (cc (on, off)), λ wrong. absurd (cc wrong))
]

handle_ipv6-Handled :
    (e : Engine) (pkt : List ℕ) → byte pkt 0 / 16 ≡ 6 → Handled e pkt (handle_ipv6 e pkt)
unfolding handle_ipv6
handle_ipv6-Handled e pkt v =
    let (ping, echo, silent) = ping_v6 e pkt in
    let (quic, udp, clear, blocking) = quic_v6 e pkt in
    elim (Bool-cases ping) [
      | inl yes_ping ↦ rw (echo, yes_ping) dropped
      | inr no_ping ↦ elim (Bool-cases quic) [
        | inl yes_quic ↦
            rw (echo, no_ping, udp, yes_quic, build_icmpv6_answers pkt)
              (rejected _ (blocking yes_quic))
        | inr no_quic ↦
            rw (echo, no_ping, udp, no_quic)
              (injected ipv6_protocol (v, silent no_ping, clear no_quic))
      ]
    ]

handle_packet-Handled :
    (e : Engine) (b : ℕ) (pkt : List ℕ) → Handled e (b ∷ pkt) (handle_packet e (b ∷ pkt))
unfolding handle_packet
handle_packet-Handled e b pkt = elim (Bool-cases (b / 16 == 4)) [
  | inl v4 ↦
      rw (index_lem (b ∷ pkt) 0 0 (omega arith), v4)
        (handle_ipv4-Handled e (b ∷ pkt) (ground arith))
  | inr no_v4 ↦ elim (Bool-cases (b / 16 == 6)) [
    | inl v6 ↦
        rw (index_lem (b ∷ pkt) 0 0 (omega arith), no_v4, v6)
          (handle_ipv6-Handled e (b ∷ pkt) (ground arith))
    | inr no_v6 ↦ rw (index_lem (b ∷ pkt) 0 0 (omega arith), no_v4, no_v6) dropped
  ]
]

-- Every packet that went to the network stack is one that the filters admit.
abbrev pub AllAdmitted : Bool → Bool → List (Protocol × List ℕ) → Type 0
AllAdmitted allow_icmp block_quic [] = Unit
AllAdmitted allow_icmp block_quic (p ∷ l) =
    IsAdmitted allow_icmp block_quic p × AllAdmitted allow_icmp block_quic l

-- What the loop keeps of an engine.
pub record Keeps (e e' : Engine) : Type 0 where
  pub same_allow : e'.allow_icmp ≡ e.allow_icmp
  pub same_block : e'.block_quic ≡ e.block_quic
  pub admitted : AllAdmitted e.allow_icmp e.block_quic e'.injected

Handled-Keeps :
    (e : Engine) (pkt : List ℕ) (m : Go Engine)
    → AllAdmitted e.allow_icmp e.block_quic e.injected
    → Handled e pkt m
    → (e' : Engine) × (m ≡ ret e') × Keeps e e'
Handled-Keeps e pkt m h dropped =
    (e, refl, record { same_allow = refl; same_block = refl; admitted = h })
Handled-Keeps e pkt m h (rejected resp _) =
    (reject e resp, refl, record { same_allow = refl; same_block = refl; admitted = h })
Handled-Keeps e pkt m h (injected proto ok) =
    (inject e proto pkt, refl, record { same_allow = refl; same_block = refl; admitted = (ok, h) })

-- From an engine whose injected packets the filters admit, such as one that has injected none, the
-- loop never panics on any sequence of rounds, keeps the settings of the filters, and every packet
-- that it injects into the network stack is one that the filters admit: if pings are not allowed, no IPv4 ping, and no
-- ICMPv6 ping behind at most seven extension headers; if QUIC is blocked, no UDP to port 443 over
-- IPv4, or over IPv6 behind at most seven extension headers.
pub tun_read_loop_safe :
    (rounds : List Round) (e : Engine)
    → AllAdmitted e.allow_icmp e.block_quic e.injected
    → (e' : Engine) × (tun_read_loop rounds e ≡ ret e') × Keeps e e'
unfolding tun_read_loop
tun_read_loop_safe [] e h = (e, refl, record { same_allow = refl; same_block = refl; admitted = h })
tun_read_loop_safe (stopped ∷ rounds) e h =
    (e, refl, record { same_allow = refl; same_block = refl; admitted = h })
tun_read_loop_safe (read_error running ∷ rounds) e h = (
  record e { stop_triggered = running },
  refl,
  record { same_allow = refl; same_block = refl; admitted = h },
)
tun_read_loop_safe (packet [] ∷ rounds) e h = tun_read_loop_safe rounds e h
tun_read_loop_safe (packet (b ∷ pkt) ∷ rounds) e h =
    let (e', ran, k) =
      Handled-Keeps (count e (b ∷ pkt)) (b ∷ pkt) _ h
        (handle_packet-Handled (count e (b ∷ pkt)) b pkt) in
    let (e'', ran', k') =
      tun_read_loop_safe rounds e' (rw (k.same_allow, k.same_block) k.admitted) in
    (
      e'',
      rw ran ran',
      record {
        same_allow = k'.same_allow ∙ k.same_allow;
        same_block = k'.same_block ∙ k.same_block;
        admitted = rw (k.same_allow, k.same_block) at k'.admitted;
      },
    )
