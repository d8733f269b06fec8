-- ===== src/Tests/Relay.antt =====
-- A UDP flow of go/engine.go: a DNS query, its answer from the relay, and a forged one.
use teapod_tun2socks.Packet.Fields.{store, copy_into, put_uint16, uint16}
use teapod_tun2socks.Prelude.{
  ℕ, ◌≡◌, refl, ◌↔◌, inl, inr, List, [], ◌∷◌, true, false, some, Option, pos, index, slice,
  slice_from, ◌≤◌, ◌⊎◌,
}
use teapod_tun2socks.Socks.Address.{to16, destination, to4}
use teapod_tun2socks.Socks.Datagram.{encode_udp_datagram, decode_udp_datagram}
use teapod_tun2socks.Socks.Datagram.Decisions.{Decision, decode_decides}
use teapod_tun2socks.Engine.Relay.{
  UdpAddr, Config, Udp, new_udp, is_relay, send_round, receive_round, left, receiving, leave,
  sending, monitoring, finish,
}
use teapod_tun2socks.Engine.Relay.Runs.{Reach, started, asks, hears, socket_fails, leaves}
use teapod_tun2socks.Engine.Relay.Senders.{is_relay_iff}
use teapod_tun2socks.Engine.Relay.Delivery.{IsFaithful, relay-IsFaithful}
use teapod_tun2socks.Engine.Relay.Tail.{Tail, sends, control_ends, returns}
use teapod_tun2socks.Engine.Relay.Tail
use teapod_tun2socks.Engine.Relay.Ending.{IsDone}
use teapod_tun2socks.Tests.Fixtures.{hook}
use teapod_tun2socks.Engine.Forward.{Server, new_server}
use teapod_tun2socks.Engine.Sessions.{Session, piping, gone}
use teapod_tun2socks.Engine.UdpSessions.{UdpFlow, move_udp, relay_step}
use teapod_tun2socks.Engine.UdpSessions
use teapod_tun2socks.Engine.UdpSessions.Ending
use teapod_tun2socks.Engine.UdpSessions.Ending.{HasNext, slot_is_released}
use teapod_tun2socks.Engine.Relay.Closing.{IsSettled, relay_settles}

abbrev loopback : List ℕ
loopback = 127 ∷ 0 ∷ 0 ∷ 1 ∷ []

-- The same address, in the form of sixteen bytes in which the socket reports it.
abbrev loopback16 : List ℕ
loopback16 = 0 ∷ 0 ∷ 0 ∷ 0 ∷ 0 ∷ 0 ∷ 0 ∷ 0 ∷ 0 ∷ 0 ∷ 255 ∷ 255 ∷ 127 ∷ 0 ∷ 0 ∷ 1 ∷ []

abbrev resolver : List ℕ
resolver = 9 ∷ 9 ∷ 9 ∷ 9 ∷ []

abbrev dns : Config
dns = record {
  dst_ip = resolver;
  dst_port = pos 53;
  mtu = 4;
  relay = record { ip = loopback; port = 1080 };
}

abbrev relay16 : UdpAddr
relay16 = record { ip = loopback16; port = 1080 }

abbrev stranger : UdpAddr
stranger = record { ip = loopback; port = 4444 }

abbrev dns_answer : List ℕ
dns_answer = 0 ∷ 0 ∷ 0 ∷ 1 ∷ 9 ∷ 9 ∷ 9 ∷ 9 ∷ 0 ∷ 53 ∷ 7 ∷ 8 ∷ []

is_relay_iff_example :
    (is_relay dns (some relay16) ≡ true)
    ↔ ((to16 loopback16 ≡ to16 loopback) × (relay16.port ≡ dns.relay.port))
is_relay_iff_example = is_relay_iff dns relay16 (inr refl) (inl refl)

decode_decides_example : Decision dns_answer
decode_decides_example = decode_decides dns_answer

-- The query is sent, the forged answer ignored, the answer delivered; then the socket fails.
abbrev answered : Udp
answered = record new_udp {
  receiver = left;
  sent = (0 ∷ 0 ∷ 0 ∷ 1 ∷ 9 ∷ 9 ∷ 9 ∷ 9 ∷ 0 ∷ 53 ∷ 1 ∷ 2 ∷ []) ∷ [];
  delivered = (7 ∷ 8 ∷ []) ∷ [];
  shut = true;
  app_closes = 1;
  socket_closes = 1;
  ctrl_closes = 1;
}

abbrev heard_here : List (List ℕ × Option UdpAddr)
heard_here = (dns_answer, some stranger) ∷ (dns_answer, some relay16) ∷ []

answered-Reach : Reach dns ((1 ∷ 2 ∷ []) ∷ []) heard_here answered
unfolding send_round receive_round leave encode_udp_datagram store destination to4 copy_into
    put_uint16 decode_udp_datagram index slice uint16 slice_from
answered-Reach =
    leaves receiving
      (socket_fails true
        (hears dns_answer (some relay16) true
          (hears dns_answer (some stranger) false (asks (1 ∷ 2 ∷ []) true started refl refl) refl
            refl)
          refl refl)
        refl refl)
      refl

relay-IsFaithful_example : IsFaithful dns ((1 ∷ 2 ∷ []) ∷ []) heard_here answered
relay-IsFaithful_example = relay-IsFaithful (inl refl) answered-Reach

relay_settles_example : IsSettled answered
relay_settles_example = relay_settles (inl refl) answered-Reach

-- The shutdown meets the sender in a round, and the monitor in its read.
abbrev closing_down : Tail
closing_down = record { flow = answered; sender_busy = true; receiver_busy = false }

abbrev over : Tail
over = record {
  flow = record answered { sender = left; monitor = left; returned = true };
  sender_busy = false;
  receiver_busy = false;
}

-- The flow around it, and its end.
abbrev closing : Session UdpFlow
closing = record {
  id = 1;
  app = 7;
  flow = record { config = dns; relay = answered };
  phase = piping;
}

abbrev closed : Session UdpFlow
closed = record closing { flow = record { config = dns; relay = over.flow }; phase = gone }

abbrev idle : Server Unit
idle = new_server hook

closing-Run : Ending.Run Unit closing closing_down 7 closed over
unfolding send_round leave finish encode_udp_datagram store destination to4 copy_into put_uint16
    move_udp relay_step
closing-Run =
    Ending.next idle
      (Ending.relayed (UdpSessions.asks (1 ∷ []) false) (sends (1 ∷ []) false refl refl refl) refl)
      (Ending.next idle
        (Ending.relayed (UdpSessions.leaves sending) (Tail.leaves sending refl) refl)
        (Ending.next idle (Ending.relayed UdpSessions.control_ends (control_ends refl) refl) (
          Ending.next idle
            (Ending.relayed (UdpSessions.leaves monitoring) (Tail.leaves monitoring refl) refl)
            (Ending.next idle (Ending.relayed UdpSessions.returns (returns refl refl refl) refl) (
              Ending.next idle (Ending.dropped refl)
                (Ending.next idle (Ending.released refl) Ending.here))))))

slot_is_released_example :
    (7 ≤ 11) × (HasNext Unit closed over ⊎ ((closed.phase ≡ gone) × IsDone closed.flow.relay))
slot_is_released_example = slot_is_released (inl refl) answered-Reach refl refl closing-Run
