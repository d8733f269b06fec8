-- ===== src/Engine/Sessions/Closing.antt =====
-- `CloseAllConnections` over the flows that the forwarders have started.
use mathlib.Core.List.{Perm, mem-append_left}
use mathlib.Core.List.Perm
use teapod_tun2socks.Prelude.{ℕ, ◌<◌, ◌≡◌, List, [], ◌∷◌, ◌++◌, map, true}
use teapod_tun2socks.Hook.{EngineHook}
use teapod_tun2socks.Engine.Pipe.{Flow}
use teapod_tun2socks.Engine.Pipe.Closing.{pipe_settles}
use teapod_tun2socks.Engine.Forward.Table.{close_all_connections}
use teapod_tun2socks.Engine.Forward.Closing.{close_all_connections-Perm}
use teapod_tun2socks.Engine.Sessions.{Session, Sessions}
use teapod_tun2socks.Engine.Sessions.Reached.{AllReached, AllOver, entries-AllReached}
use teapod_tun2socks.Engine.Sessions.Table.{entries}
use teapod_tun2socks.Engine.Sessions.Runs.{Reach}
use teapod_tun2socks.Engine.Sessions.Invariant.{AllLive, Reach-IsTracked}

-- Both ends of a flow have been closed, and `pipeConnections` has returned.
abbrev pub IsClosed : Flow → Type 0
IsClosed f = (f.returned ≡ true) × (f.app_closes ≡ 1) × (f.proxy_closes ≡ 1)

AllLive-AllOver : (l : List (Session Flow)) → AllLive l → AllOver IsClosed l
AllLive-AllOver [] live = tt
AllLive-AllOver (x ∷ l) live = (
  λ off.
      let over = live.0.left_after off in
      let ends = (pipe_settles live.0.reached).in_the_end over in (over, ends.0, ends.1),
  AllLive-AllOver l live.1,
)

-- In every interleaving of the TCP flows, for less than 2^63 - 1 numbers, and if `range` visits each
-- entry of a map once: `CloseAllConnections` closes exactly the app's ends of the TCP flows that
-- are between `trackConn` and `untrackConn`, and the tracked UDP connections, each once; and it
-- misses none: every TCP flow that was ever started is among them, or `pipeConnections` has
-- returned for it and closed both ends exactly once.
pub close_all_connections-AllReached :
    {V : Type 0} {hook : EngineHook V} {n : ℕ} {s : Sessions V}
    (range : List (ℕ × ℕ) → List (ℕ × ℕ))
    → Reach hook n s
    → n < 9223372036854775807
    → ((m : List (ℕ × ℕ)) → Perm (range m) m)
    → Perm
        (close_all_connections range s.server.conns s.server.udp_conns).0
        (map (λ e. e.1) (entries s.sessions) ++ map (λ e. e.1) s.server.udp_conns)
      × AllReached IsClosed
          (close_all_connections range s.server.conns s.server.udp_conns).0
          s.sessions
close_all_connections-AllReached {s = s} range r small visits =
    let v = Reach-IsTracked r small in
    let (closes, _) = close_all_connections-Perm range s.server.conns s.server.udp_conns visits in
    let exact : Perm (close_all_connections range s.server.conns s.server.udp_conns).0
        (map (λ e. e.1) (entries s.sessions) ++ map (λ e. e.1) s.server.udp_conns) =
      rw (← v.table) closes in
    (
      exact,
      entries-AllReached IsClosed _ s.sessions (AllLive-AllOver s.sessions v.live)
          (λ app m. (Perm.mem_iff exact).1 (mem-append_left (map (λ e. e.1) s.server.udp_conns) m)),
    )
