-- ===== src/Engine/Relay/Rounds.antt =====
-- What one round of a loop of `pipeUDP` does.
use mathlib.Core.List.{append-nil}
use teapod_tun2socks.Prelude.{
  ℕ, ◌+◌, ◌≡◌, refl, pos, List, [], ◌∷◌, ◌++◌, take, Bool, true, false, Option, some, Go, ret,
  panic, ◌⊎◌, inl, inr, Bool-cases, if◌then◌else◌, int_to_u16,
}
use teapod_tun2socks.Socks.Address.{to16}
use teapod_tun2socks.Socks.Datagram.{decode_udp_datagram, Decoded, decoded, refused}
use teapod_tun2socks.Socks.Datagram.RoundTrip.{IsAddress, datagram_round_trip}
use teapod_tun2socks.Socks.Datagram.Decisions.{ipv4, ipv6, none_of_them, decode_decides}
use teapod_tun2socks.Engine.Relay.{
  UdpAddr, Config, leaving, Udp, send_round, is_relay, answer, receive_round,
}

-- What the app gets for a datagram that the socket hears: its payload, if it comes from the relay
-- and is well formed. The buffer holds 22 bytes more than a packet.
abbrev pub payload_of : Go Decoded → List (List ℕ)
payload_of (ret (decoded ip port payload)) = payload ∷ []
payload_of (ret (refused e)) = []
payload_of panic = []

unfoldable pub reply : Config → List ℕ × Option UdpAddr → List (List ℕ)
reply c (packet, from) =
    if is_relay c from then payload_of (decode_udp_datagram (take (c.mtu + 22) packet)) else []

-- The app gets the reply, or the loop ends.
abbrev pub Received : Config → List ℕ × Option UdpAddr → Udp → Udp → Type 0
Received c m f g =
    (g ≡ record f { delivered = f.delivered ++ reply c m }) ⊎ (g ≡ record f { receiver = leaving })

answer-Received :
    (d : Decoded) (ok : Bool) (f : Udp)
    → (answer d ok f ≡ record f { delivered = f.delivered ++ payload_of (ret d) })
      ⊎ (answer d ok f ≡ record f { receiver = leaving })
unfolding answer
answer-Received (refused e) ok f = inl (rw append-nil refl)
answer-Received (decoded ip port payload) true f = inl refl
answer-Received (decoded ip port payload) false f = inr refl

decode_total : (b : List ℕ) → (d : Decoded) × (decode_udp_datagram b ≡ ret d)
decode_total b = elim (decode_decides b) [
  | ipv4 _ h ↦ (_, h)
  | ipv6 _ h ↦ (_, h)
  | none_of_them e _ _ h ↦ (refused e, h)
]

pub receive_round-Received :
    (c : Config) (packet : List ℕ) (from : Option UdpAddr) (ok : Bool) (f : Udp)
    → (g : Udp) × (receive_round c (some (packet, from)) ok f ≡ ret g)
      × Received c (packet, from) f g
unfolding receive_round reply
receive_round-Received c packet from ok f = elim (Bool-cases (is_relay c from)) [
  | inl genuine ↦
      let (d, same) = decode_total (take (c.mtu + 22) packet) in
      (
        answer d ok f,
        rw (genuine, same, receive_round) refl,
        rw (genuine, same, reply) (answer-Received d ok f),
      )
  | inr foreign ↦
      (f, rw (foreign, receive_round) refl, rw (foreign, reply) (inl (rw append-nil refl)))
]

-- A datagram for the destination of the flow that carries a packet.
abbrev pub IsRequest : Config → List ℕ → List ℕ → Type 0
IsRequest c packet bytes =
    (addr : List ℕ) × (decode_udp_datagram bytes
      ≡ ret (decoded addr (pos (int_to_u16 c.dst_port)) (take c.mtu packet)))
    × (to16 addr ≡ to16 c.dst_ip)

-- The packet goes to the relay, or the loop ends.
abbrev pub Forwarded : Config → List ℕ → Udp → Udp → Type 0
Forwarded c packet f g =
    ((bytes : List ℕ) × IsRequest c packet bytes × (g ≡ record f { sent = f.sent ++ (bytes ∷ []) }))
    ⊎ (g ≡ record f { sender = leaving })

pub send_round-Forwarded :
    (c : Config) (packet : List ℕ) (ok : Bool) (f : Udp)
    → IsAddress c.dst_ip
    → (g : Udp) × (send_round c (some packet) ok f ≡ ret g) × Forwarded c packet f g
unfolding send_round
send_round-Forwarded c packet true f h =
    let (bytes, addr, made, read, same) =
      datagram_round_trip c.dst_ip c.dst_port (take c.mtu packet) h in
    (
      record f { sent = f.sent ++ (bytes ∷ []) },
      rw (made, send_round) refl,
      inl (bytes, (addr, read, same), refl),
    )
send_round-Forwarded c packet false f h =
    let (bytes, addr, made, read, same) =
      datagram_round_trip c.dst_ip c.dst_port (take c.mtu packet) h in
    (record f { sender = leaving }, rw (made, send_round) refl, inr refl)
