-- ===== src/Engine/UdpSessions.antt =====
-- go/engine.go, a UDP flow from the slot that the callback of the forwarder reserves for it to the
-- release of that slot: `handleUDPForwarder` around `pipeUDP`, between the table and the count.
pub mod Steps
pub mod Runs
pub mod Invariant
pub mod Cap
pub mod Closing
pub mod Ending
pub mod Handler
use teapod_tun2socks.Prelude.{
  ℕ, List, ◌∷◌, Bool, true, false, not, ◌&&◌, Option, none, some, Go, ret, if◌then◌else◌,
}
use teapod_tun2socks.Engine.Relay.{
  UdpAddr, Config, Stage, looping, leaving, left, Udp, new_udp, send_round, receive_round,
  Goroutine, monitoring, stage, set_stage, leave, finish,
}
use teapod_tun2socks.Engine.Forward.{Server, next_id, track_udp, untrack_udp, release_slot}
use teapod_tun2socks.Engine.Sessions.{Phase, piping, untracked, gone, Session}

-- A relay with the arguments of `pipeUDP`.
pub record UdpFlow : Type 0 where
  pub config : Config
  pub relay : Udp

-- A step of `pipeUDP` or of one of its goroutines: a round of a loop, with what it reads and whether
-- it can write; the end of the control connection; the end of a goroutine; the return.
pub data RelayMove : Type 0 where
  asks : List ℕ → Bool → RelayMove
  hears : List ℕ → Option UdpAddr → Bool → RelayMove
  app_fails socket_fails : Bool → RelayMove
  control_ends returns : RelayMove
  leaves : Goroutine → RelayMove

-- What a goroutine does that is in its loop, or at its deferred `shutdown`.
abbrev pub when_looping : Stage → Go Udp → Option Udp
when_looping looping (ret g) = some g
when_looping _ _ = none

abbrev pub when_leaving : Stage → Udp → Option Udp
when_leaving leaving g = some g
when_leaving _ g = none

-- After `wg.Wait()`
abbrev pub when_left : Stage → Stage → Bool → Udp → Option Udp
when_left left left false g = some g
when_left _ _ _ g = none

unfoldable pub relay_step : Config → RelayMove → Udp → Option Udp
relay_step c (asks packet ok) f = when_looping f.sender (send_round c (some packet) ok f)
relay_step c (app_fails ok) f = when_looping f.sender (send_round c none ok f)
relay_step c (hears packet from ok) f =
    when_looping f.receiver (receive_round c (some (packet, from)) ok f)
relay_step c (socket_fails ok) f = when_looping f.receiver (receive_round c none ok f)
relay_step c control_ends f = when_looping f.monitor (ret (set_stage monitoring leaving f))
relay_step c (leaves who) f = when_leaving (stage who f) (leave who f)
relay_step c returns f = when_left f.sender f.receiver f.returned (finish f)

-- The server with all relays that it has started, the latest first. `holding` are the handlers that
-- hold a slot and have no relay yet; `over` says that the callback, which the read loop alone runs,
-- has found the cap exceeded and must take its reservation back.
pub record UdpSessions (V : Type 0) : Type 0 where
  pub server : Server V
  pub sessions : List (Session UdpFlow)
  pub holding : ℕ
  pub over : Bool

-- `connID := e.connsSeq.Add(1)`, `e.trackUDPConn(connID, gonetConn)` and the call of `pipeUDP`. The
-- slot that the handler holds stays with the relay.
unfoldable pub begin_relay : {V : Type 0} → ℕ → Config → ℕ → UdpSessions V → UdpSessions V
begin_relay app c holding s = record {
  server = track_udp app s.server;
  sessions =
      record {
        id = next_id s.server;
        app = app;
        flow = record { config = c; relay = new_udp };
        phase = piping;
      }
      ∷ s.sessions;
  holding = holding;
  over = s.over;
}

-- A step of the relay; the deferred `e.untrackUDPConn(connID)`; the deferred
-- `e.activeUDPConns.Add(-1)`.
pub data UdpMove : Type 0 where
  relays : RelayMove → UdpMove
  drops releases : UdpMove

abbrev pub with_relay :
    {V : Type 0} → Option Udp → Session UdpFlow → Server V → Option (Session UdpFlow × Server V)
with_relay none x e = none
with_relay (some f) x e = some (record x { flow = record x.flow { relay = f } }, e)

-- A move of a flow in a phase; `none` if it is not its turn. The monitor may outlive `pipeUDP`.
unfoldable pub move_udp :
    {V : Type 0}
    → UdpMove
    → Phase
    → Session UdpFlow
    → Server V
    → Option (Session UdpFlow × Server V)
move_udp (relays m) phase x e = with_relay (relay_step x.flow.config m x.flow.relay) x e
move_udp drops piping x e =
    if x.flow.relay.returned
    then some (record x { phase = untracked }, untrack_udp x.id e)
    else none
move_udp releases untracked x e = some (record x { phase = gone }, release_slot e)
move_udp _ _ x e = none
