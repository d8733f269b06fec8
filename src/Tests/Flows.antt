-- ===== src/Tests/Flows.antt =====
-- A TCP flow and a UDP flow of go/engine.go at the same time, over one server.
use mathlib.Core.List.{reverse, reverse_perm}
use teapod_tun2socks.Tests.Fixtures.{dns, hook}
use teapod_tun2socks.Prelude.{◌≡◌, refl, inl, pos, [], ◌∷◌, false, ◌+ℤ◌, arith}
use teapod_tun2socks.Engine.Pipe.{start}
use teapod_tun2socks.Engine.Relay.{new_udp}
use teapod_tun2socks.Engine.Forward.{
  track_tcp, count_tcp, track_udp, reserve_slot, new_server, active_conns_of,
}
use teapod_tun2socks.Engine.Forward.Table.{close_all_connections, track}
use teapod_tun2socks.Engine.Sessions.{piping, begin_session, counts, move_session}
use teapod_tun2socks.Engine.Sessions.Table.{here}
use teapod_tun2socks.Engine.UdpSessions.{begin_relay}
use teapod_tun2socks.Engine.Flows.{
  Flows, Reach, booted, tcp_begins, tcp_moves, udp_admits, udp_begins,
}
use teapod_tun2socks.Engine.Flows.Closing.{
  IsComplete, active_conns_of-count_sessions, close_all_connections-IsComplete,
}

abbrev both : Flows Unit
both = record {
  server = record (new_server hook) {
    conns = (1, 7) ∷ [];
    udp_conns = (2, 8) ∷ [];
    conns_seq = 2;
    active_conns = pos 1;
    active_udp_conns = pos 1;
  };
  tcp = record { id = 1; app = 7; flow = start (pos 0) 0; phase = piping } ∷ [];
  udp =
      record { id = 2; app = 8; flow = record { config = dns; relay = new_udp }; phase = piping }
      ∷ [];
  holding = 0;
  over = false;
}

both-Reach : Reach hook 2 both
unfolding begin_session begin_relay move_session track_tcp count_tcp track_udp track reserve_slot
    ◌+ℤ◌
both-Reach =
    udp_begins 8 dns 0
      (udp_admits (tcp_moves counts _ _ _ _ (tcp_begins 7 (pos 0) booted) here refl) refl refl)
      (inl refl) refl

active_conns_of-count_sessions_example : active_conns_of both.server ≡ pos 2
active_conns_of-count_sessions_example = active_conns_of-count_sessions both-Reach (omega arith)

close_all_connections-IsComplete_example :
    IsComplete both (close_all_connections reverse both.server.conns both.server.udp_conns)
close_all_connections-IsComplete_example =
    close_all_connections-IsComplete reverse both-Reach (omega arith) (λ m. reverse_perm m)
