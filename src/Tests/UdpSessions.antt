-- ===== src/Tests/UdpSessions.antt =====
-- Two UDP flows of go/engine.go: one has ended, the other runs.
use mathlib.Core.List.{List}
use teapod_tun2socks.Tests.Fixtures.{
  dns, text, digits, parse, ask, client, web, hook, guarded, guarded-Reach, proxy, proxy_open,
}
use teapod_tun2socks.Prelude.{
  ◌+◌, ◌≤◌, refl, inl, pos, [], ◌∷◌, true, false, some, arith, ◌+ℤ◌, ◌-ℤ◌, Option, ret, ◌≡◌, ℕ,
}
use teapod_tun2socks.Socks.Dial.{Association}
use teapod_tun2socks.Engine.UdpSessions.Handler.{Follows, begun, handle_udp-Follows}
use teapod_tun2socks.Engine.Relay.{
  left, Udp, new_udp, send_round, receive_round, sending, receiving, leave, finish,
}
use teapod_tun2socks.Engine.Forward.{
  track_udp, untrack_udp, reserve_slot, release_slot, new_server, Handled, handle_udp, Server,
}
use teapod_tun2socks.Engine.Forward.Table.{track, untrack}
use teapod_tun2socks.Engine.Sessions.{piping, gone, Session}
use teapod_tun2socks.Engine.Sessions.Table.{here}
use teapod_tun2socks.Engine.UdpSessions.{
  UdpFlow, app_fails, socket_fails, returns, leaves, relay_step, UdpSessions, begin_relay, relays,
  drops, releases, move_udp,
}
use teapod_tun2socks.Engine.UdpSessions.Runs.{Reach, booted, admits, begins, moves}
use teapod_tun2socks.Engine.UdpSessions.Invariant.{IsCapped}
use teapod_tun2socks.Engine.UdpSessions.Cap.{Reach-IsCapped, count_open, open_sockets_capped}

-- A relay whose ends the loops have found broken; its monitor has not seen it yet.
abbrev over : Udp
over = record new_udp {
  sender = left;
  receiver = left;
  shut = true;
  app_closes = 1;
  socket_closes = 1;
  ctrl_closes = 1;
  returned = true;
}

abbrev first : Session UdpFlow
first = record { id = 1; app = 7; flow = record { config = dns; relay = over }; phase = gone }

abbrev second : Session UdpFlow
second = record { id = 2; app = 8; flow = record { config = dns; relay = new_udp }; phase = piping }

abbrev busy : UdpSessions Unit
busy = record {
  server = record (new_server hook) {
    udp_conns = (2, 8) ∷ [];
    conns_seq = 2;
    active_udp_conns = pos 1;
  };
  sessions = second ∷ first ∷ [];
  holding = 0;
  over = false;
}

busy-Reach : Reach hook 2 busy
unfolding begin_relay move_udp relay_step send_round receive_round leave finish track_udp
    untrack_udp track untrack reserve_slot release_slot ◌+ℤ◌ ◌-ℤ◌
busy-Reach =
    begins 8 dns 0
      (admits
        (moves releases _ first _ _
          (moves drops _ _ _ _
            (moves (relays returns) _ _ _ _
              (moves (relays (leaves receiving)) _ _ _ _
                (moves (relays (socket_fails true)) _ _ _ _
                  (moves (relays (leaves sending)) _ _ _ _
                    (moves (relays (app_fails true)) _ _ _ _
                      (begins 7 dns 0 (admits booted refl refl) (inl refl) refl) here refl)
                    here refl)
                  here refl)
                here refl)
              here refl)
            here refl)
          here refl)
        refl refl)
      (inl refl) refl

Reach-IsCapped_example : IsCapped 2 busy
Reach-IsCapped_example = Reach-IsCapped busy-Reach (omega arith)

open_sockets_capped_example : busy.holding + count_open busy.sessions ≤ 512
open_sockets_capped_example = open_sockets_capped busy-Reach (omega arith)

-- A handler that has just been given a slot.
abbrev admitted : UdpSessions Unit
admitted = record busy { server = record busy.server { active_udp_conns = pos 2 }; holding = 1 }

admitted-Reach : Reach hook 2 admitted
unfolding reserve_slot ◌+ℤ◌
admitted-Reach = admits busy-Reach refl refl

handle_udp-Follows_example :
    (e : Server Unit) × (w' : ℕ) × (r : Handled (Option (Association (List ℕ)))) × (handle_udp text
        digits ask parse client
        (some 9)
        web
        (pos 5)
        (pos 6)
        (some proxy)
        (some 50000)
        0
        admitted.server
      ≡ ret (e, w', r))
    × Follows hook 2 0 (begun (some 9) r.dialled) admitted e
handle_udp-Follows_example =
    handle_udp-Follows text digits ask parse guarded guarded-Reach admitted admitted-Reach refl refl
      client (some 9) web 1500 dns.relay (pos 5) (pos 6) (some proxy) (some 50000) 0 (inl refl)
      proxy_open
