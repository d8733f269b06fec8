-- ===== src/Tests/Sessions.antt =====
-- Two TCP flows of go/engine.go: one has ended, the other runs.
use teapod_tun2socks.Tests.Fixtures.{
  text, digits, parse, ask, client, web, hook, guarded, guarded-Reach, proxy, proxy_open,
}
use teapod_tun2socks.Prelude.{
  ◌≡◌, ◌≤◌, ◌⊎◌, refl, pos, [], ◌∷◌, true, false, some, arith, ◌+ℤ◌, Option, ret, ℕ,
}
use teapod_tun2socks.Socks.Stream.{Out}
use teapod_tun2socks.Engine.Sessions.Handler.{Follows, begun, handle_tcp-Follows}
use teapod_tun2socks.Engine.Pipe.{
  Flow, upward, downward, read_returns, go_on, broken, step, finish, start, ended,
}
use teapod_tun2socks.Engine.Forward.{
  track_tcp, count_tcp, untrack_tcp, new_server, Handled, handle_tcp, Server,
}
use teapod_tun2socks.Engine.Forward.Table.{track, untrack}
use teapod_tun2socks.Engine.Sessions.{
  registered, piping, untracked, gone, Session, Sessions, begin_session, counts, pipes_return,
  untracks, uncounts, pipe_acts, move_session,
}
use teapod_tun2socks.Engine.Sessions.Table.{here}
use teapod_tun2socks.Engine.Sessions.Runs.{Reach, booted, begins, moves}
use teapod_tun2socks.Engine.Sessions.Invariant.{IsTracked, Reach-IsTracked}
use teapod_tun2socks.Engine.Sessions.Ending.{Run, stop, more, HasMove, session_ends}

-- A flow whose ends the pipes have found broken and closed.
abbrev over : Flow
over = record (start (pos 0) 0) {
  up = record { pc = ended; received = []; sent = []; fin = false };
  down = record { pc = ended; received = []; sent = []; fin = false };
  shut = true;
  app_closes = 1;
  proxy_closes = 1;
}

abbrev first : Session Flow
first = record { id = 1; app = 7; flow = record over { returned = true }; phase = untracked }

abbrev second : Session Flow
second = record { id = 2; app = 8; flow = start (pos 5) 0; phase = registered }

abbrev busy : Sessions Unit
busy = record {
  server = record (new_server hook) { conns = (2, 8) ∷ []; conns_seq = 2; active_conns = pos 1 };
  sessions = second ∷ first ∷ [];
}

busy-Reach : Reach hook 2 busy
unfolding begin_session move_session step finish track_tcp count_tcp untrack_tcp track untrack ◌+ℤ◌
busy-Reach = begins 8 (pos 5) (
    moves untracks _ first _ _
      (moves pipes_return _ _ _ _
        (moves (pipe_acts downward go_on) _ _ _ _
          (moves (pipe_acts downward go_on) _ _ _ _
            (moves (pipe_acts downward (read_returns [] (some broken))) _ _ _ _
              (moves (pipe_acts upward go_on) _ _ _ _
                (moves (pipe_acts upward go_on) _ _ _ _
                  (moves (pipe_acts upward (read_returns [] (some broken))) _ _ _ _
                    (moves counts _ _ _ _ (begins 7 (pos 0) booted) here refl) here refl)
                  here refl)
                here refl)
              here refl)
            here refl)
          here refl)
        here refl)
      here refl)

Reach-IsTracked_example : IsTracked 2 busy
Reach-IsTracked_example = Reach-IsTracked busy-Reach (omega arith)

abbrev closing_down : Session Flow
closing_down = record { id = 1; app = 7; flow = over; phase = piping }

abbrev at_end : Session Flow
at_end = record first { phase = gone }

closing_down-Run : Run Unit closing_down 3 at_end
unfolding move_session finish
closing_down-Run =
    let e = busy.server in
    more pipes_return e _ tt refl (more untracks e _ tt refl (more uncounts e _ tt refl stop))

session_ends_example : (3 ≤ 22) × (HasMove Unit at_end ⊎ (at_end.phase ≡ gone))
session_ends_example = session_ends refl closing_down-Run

handle_tcp-Follows_example :
    (e : Server Unit) × (w' : ℕ) × (r : Handled (Option (Out (Unit {0})))) × (handle_tcp text digits
        ask parse client
        (some 9)
        web
        (pos 5)
        (pos 6)
        (some proxy)
        0
        busy.server
      ≡ ret (e, w', r))
    × Follows hook 2 (begun (some 9) r.dialled) busy e
handle_tcp-Follows_example =
    handle_tcp-Follows text digits ask guarded guarded-Reach busy busy-Reach refl parse client
      (some 9) web (pos 5) (pos 6) (pos 7) (some proxy) 0 proxy_open
