-- ===== src/Engine/Sessions.antt =====
-- go/engine.go, the goroutine that `handleTCPForwarder` starts: `pipeConnections` between the count
-- and the table of the connections. A session is such a flow from `trackConn` to the end of its
-- goroutine.
pub mod Table
pub mod Runs
pub mod Invariant
pub mod Reached
pub mod Closing
pub mod Ending
pub mod Handler
use teapod_tun2socks.Prelude.{ℕ, ℤ, List, ◌∷◌, Bool, true, false, Option, none, some, if◌then◌else◌}
use teapod_tun2socks.Engine.Pipe.{Flow, Direction, Event, step, finish, start}
use teapod_tun2socks.Engine.Forward.{
  Server, next_id, track_tcp, untrack_tcp, count_tcp, uncount_tcp,
}

-- Tracked and not counted yet; `pipeConnections` runs or has just returned; after `untrackConn`;
-- after `activeConns.Add(-1)`.
pub data Phase : Type 0 where
  registered piping untracked gone : Phase

-- A flow with its number, its app's end and the state of its connections.
pub record Session (F : Type 0) : Type 0 where
  pub id : ℕ
  pub app : ℕ
  pub flow : F
  pub phase : Phase

-- The server with all TCP flows that it has started, the latest first. A flow counts the zombies of
-- its own.
pub record Sessions (V : Type 0) : Type 0 where
  pub server : Server V
  pub sessions : List (Session Flow)

-- `connID := e.connsSeq.Add(1)` and `e.trackConn(connID, tc)`, for an app's end and a time
unfoldable pub begin_session : {V : Type 0} → ℕ → ℤ → Sessions V → Sessions V
begin_session app now s = record {
  server = track_tcp app s.server;
  sessions =
      record { id = next_id s.server; app = app; flow = start now 0; phase = registered }
      ∷ s.sessions;
}

-- What the handler and the goroutine of a session do next: `e.activeConns.Add(1)`; a step of a pipe;
-- the return of `pipeConnections`; the deferred `e.untrackConn(connID)`; the deferred
-- `e.activeConns.Add(-1)`.
pub data Move : Type 0 where
  counts pipes_return untracks uncounts : Move
  pipe_acts : Direction → Event → Move

abbrev pub with_flow :
    {V : Type 0} → Option Flow → Session Flow → Server V → Option (Session Flow × Server V)
with_flow none x e = none
with_flow (some f) x e = some (record x { flow = f }, e)

-- A move of a session in a phase; `none` if it is not its turn.
unfoldable pub move_session :
    {V : Type 0} → Move → Phase → Session Flow → Server V → Option (Session Flow × Server V)
move_session counts registered x e = some (record x { phase = piping }, count_tcp e)
move_session (pipe_acts d event) piping x e = with_flow (step d event x.flow) x e
move_session pipes_return piping x e =
    if x.flow.returned then none else with_flow (finish x.flow) x e
move_session untracks piping x e =
    if x.flow.returned then some (record x { phase = untracked }, untrack_tcp x.id e) else none
move_session uncounts untracked x e = some (record x { phase = gone }, uncount_tcp e)
move_session _ _ x e = none
