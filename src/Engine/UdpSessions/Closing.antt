-- ===== src/Engine/UdpSessions/Closing.antt =====
-- `CloseAllConnections` over the UDP flows that have a relay.
use mathlib.Core.List.{Perm, mem-append_right}
use mathlib.Core.List.Perm
use teapod_tun2socks.Prelude.{ℕ, ◌<◌, ◌≡◌, List, [], ◌∷◌, ◌++◌, map, true}
use teapod_tun2socks.Hook.{EngineHook}
use teapod_tun2socks.Engine.Relay.Closing.{relay_settles}
use teapod_tun2socks.Engine.Forward.Table.{close_all_connections}
use teapod_tun2socks.Engine.Forward.Closing.{close_all_connections-Perm}
use teapod_tun2socks.Engine.Sessions.{Session}
use teapod_tun2socks.Engine.Sessions.Reached.{AllReached, AllOver, entries-AllReached}
use teapod_tun2socks.Engine.Sessions.Table.{entries}
use teapod_tun2socks.Engine.UdpSessions.{UdpFlow, UdpSessions}
use teapod_tun2socks.Engine.UdpSessions.Runs.{Reach}
use teapod_tun2socks.Engine.UdpSessions.Invariant.{AllLive}
use teapod_tun2socks.Engine.UdpSessions.Cap.{Reach-IsCapped}

-- `pipeUDP` has returned, and has closed the app's end, the socket and the control connection.
pub record IsReleased (f : UdpFlow) : Type 0 where
  pub has_returned : f.relay.returned ≡ true
  pub app_once : f.relay.app_closes ≡ 1
  pub socket_once : f.relay.socket_closes ≡ 1
  pub ctrl_once : f.relay.ctrl_closes ≡ 1

AllLive-AllOver : (l : List (Session UdpFlow)) → AllLive l → AllOver IsReleased l
AllLive-AllOver [] live = tt
AllLive-AllOver (x ∷ l) live = (
  λ off.
      let over = live.0.left_after off in
      let settled = relay_settles live.0.address live.0.reached.2 in
      let (app, socket, ctrl) = settled.once_shut (settled.in_the_end over).2 in
      record { has_returned = over; app_once = app; socket_once = socket; ctrl_once = ctrl },
  AllLive-AllOver l live.1,
)

-- In every interleaving of the UDP flows, for less than 2^63 numbers, and if `range` visits each
-- entry of a map once: `CloseAllConnections` closes exactly the tracked TCP connections and the
-- app's ends of the UDP flows that are between `trackUDPConn` and `untrackUDPConn`, each once; and
-- it misses none: every relay that was ever started is among them, or `pipeUDP` has returned for it
-- and closed the app's end, the socket and the control connection exactly once.
pub close_all_connections-IsReleased :
    {V : Type 0} {hook : EngineHook V} {n : ℕ} {s : UdpSessions V}
    (range : List (ℕ × ℕ) → List (ℕ × ℕ))
    → Reach hook n s
    → n < 9223372036854775808
    → ((m : List (ℕ × ℕ)) → Perm (range m) m)
    → Perm
        (close_all_connections range s.server.conns s.server.udp_conns).0
        (map (λ e. e.1) s.server.conns ++ map (λ e. e.1) (entries s.sessions))
      × AllReached IsReleased
          (close_all_connections range s.server.conns s.server.udp_conns).0
          s.sessions
close_all_connections-IsReleased {s = s} range r small visits =
    let v = Reach-IsCapped r small in
    let (closes, _) = close_all_connections-Perm range s.server.conns s.server.udp_conns visits in
    let exact : Perm (close_all_connections range s.server.conns s.server.udp_conns).0
        (map (λ e. e.1) s.server.conns ++ map (λ e. e.1) (entries s.sessions)) =
      rw (← v.table) closes in
    (
      exact,
      entries-AllReached IsReleased _ s.sessions (AllLive-AllOver s.sessions v.live)
          (λ app m. (Perm.mem_iff exact).1 (mem-append_right (map (λ e. e.1) s.server.conns) m)),
    )
