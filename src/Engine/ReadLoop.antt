-- ===== src/Engine/ReadLoop.antt =====
-- go/engine.go, `tunReadLoop`: each packet from the TUN device is dropped, rejected or injected into
-- the network stack. What the loop reads is a list of events. Log lines are left out, and the error
-- of a write to the device is only logged.
pub mod Admitted
pub mod Safety
pub mod Evasion
use teapod_tun2socks.Prelude.{
  ℕ, ◌+◌, ◌/◌, ◌%◌, List, [], ◌∷◌, length, Bool, true, false, not, ◌&&◌, ◌==◌, ltb, if◌then◌else◌,
  Option, none, some, Go, ret, ◌>>=◌, index,
}
use teapod_tun2socks.Key.{protocol_icmp, protocol_icmpv6}
use teapod_tun2socks.Packet.Ipv6.{ipv6_transport_header}
use teapod_tun2socks.Packet.Filter.{
  should_block_icmp, should_block_icmpv6, is_udp_dst_port_ipv4, is_udp_dst_port_ipv6,
}
use teapod_tun2socks.Packet.Unreachable.{
  build_icmpv4_port_unreachable, build_icmpv6_port_unreachable,
}

pub data Protocol : Type 0 where
  ipv4_protocol ipv6_protocol : Protocol

-- The part of `Engine` that the loop uses. `written` and `injected` are what went to the TUN device
-- and to the network stack, the latest first; `stop_triggered` says that the loop called `Stop`.
pub record Engine : Type 0 where
  pub allow_icmp : Bool
  pub block_quic : Bool
  pub tx_bytes : ℕ
  pub quic_rejects : ℕ
  pub written : List (List ℕ)
  pub injected : List (Protocol × List ℕ)
  pub stop_triggered : Bool

-- `e.quicRejects.Add(1)`, and the answer, if there is one
abbrev pub reject : Engine → Option (List ℕ) → Engine
reject e resp = record e {
  quic_rejects = (e.quic_rejects + 1) % 18446744073709551616;
  written = elim resp [ none ↦ e.written | some out ↦ out ∷ e.written ];
}

-- `e.endpoint.InjectInbound(proto, pkb)`
abbrev pub inject : Engine → Protocol → List ℕ → Engine
inject e proto pkt = record e { injected = (proto, pkt) ∷ e.injected }

-- `e.txBytes.Add(uint64(n))`
abbrev pub count : Engine → List ℕ → Engine
count e pkt = record e { tx_bytes = (e.tx_bytes + length pkt) % 18446744073709551616 }

unfoldable pub is_echo_v4 : Engine → List ℕ → Go Bool
is_echo_v4 e pkt =
    if not e.allow_icmp && ltb 9 (length pkt)
    then (do
      proto ← index pkt 9
      if proto == protocol_icmp then should_block_icmp pkt false else ret false)
    else ret false

unfoldable pub handle_ipv4 : Engine → List ℕ → Go Engine
unfolding is_echo_v4
handle_ipv4 e pkt = do
  echo ← is_echo_v4 e pkt
  if echo then ret e else (do
    quic ← if e.block_quic then is_udp_dst_port_ipv4 pkt 443 else ret false
    if quic
        then (do resp ← build_icmpv4_port_unreachable pkt; ret (reject e resp))
        else ret (inject e ipv4_protocol pkt))

unfoldable pub is_echo_v6 : Engine → List ℕ → Go Bool
is_echo_v6 e pkt = if e.allow_icmp then ret false else (do
  found ← ipv6_transport_header pkt
  elim found [
    | none ↦ ret false
    | some (proto, off) ↦
        if proto == protocol_icmpv6 then should_block_icmpv6 pkt off else ret false
  ])

unfoldable pub handle_ipv6 : Engine → List ℕ → Go Engine
unfolding is_echo_v6
handle_ipv6 e pkt = do
  echo ← is_echo_v6 e pkt
  if echo then ret e else (do
    quic ← if e.block_quic then is_udp_dst_port_ipv6 pkt 443 else ret false
    if quic
        then (do resp ← build_icmpv6_port_unreachable pkt; ret (reject e resp))
        else ret (inject e ipv6_protocol pkt))

-- The round of the loop after a read of at least one byte.
unfoldable pub handle_packet : Engine → List ℕ → Go Engine
unfolding handle_ipv4 handle_ipv6
handle_packet e pkt = do
  first ← index pkt 0
  if first / 16 == 4
      then handle_ipv4 e pkt
      else if first / 16 == 6
      then handle_ipv6 e pkt
      else ret e

-- A round: the stop channel is closed, the read fails while the engine is running or not, or the
-- read gives a packet.
pub data Round : Type 0 where
  stopped : Round
  read_error : Bool → Round
  packet : List ℕ → Round

-- `tunReadLoop`, until it ends or the rounds do.
unfoldable pub tun_read_loop : List Round → Engine → Go Engine
unfolding handle_packet
tun_read_loop [] e = ret e
tun_read_loop (stopped ∷ rounds) e = ret e
tun_read_loop (read_error running ∷ rounds) e = ret (record e { stop_triggered = running })
tun_read_loop (packet [] ∷ rounds) e = tun_read_loop rounds e
tun_read_loop (packet (b ∷ pkt) ∷ rounds) e = do
  e' ← handle_packet (count e (b ∷ pkt)) (b ∷ pkt)
  tun_read_loop rounds e'
