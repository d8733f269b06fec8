-- ===== src/Engine/UdpSessions/Ending.antt =====
-- The end of a UDP flow after the `shutdown` of its relay: from `pipeUDP` to the released slot.
use teapod_tun2socks.Prelude.{
  ℕ, suc, ◌+◌, ◌≤◌, ◌≡◌, refl, List, true, Option, some, ◌⊎◌, inl, inr, arith,
}
use teapod_tun2socks.Socks.Datagram.RoundTrip.{IsAddress}
use teapod_tun2socks.Engine.Relay.{UdpAddr, Config, Stage, Udp, looping}
use teapod_tun2socks.Engine.Relay.Runs
use teapod_tun2socks.Engine.Relay.Tail.{Tail, Step, sends, receives, stop, more}
use teapod_tun2socks.Engine.Relay.Tail
use teapod_tun2socks.Engine.Relay.Ending.{CanMove, IsDone, relay_ends}
use teapod_tun2socks.Engine.Forward.{Server, untrack_udp, release_slot}
use teapod_tun2socks.Engine.Sessions.{Phase, registered, piping, untracked, gone, Session}
use teapod_tun2socks.Engine.UdpSessions.{
  UdpFlow, RelayMove, asks, hears, app_fails, socket_fails, control_ends, returns, leaves,
  relay_step, relays, drops, releases, move_udp, Go, ret, when_looping,
}

-- The session with the relay of a tail.
abbrev pub with_tail : Session UdpFlow → Tail → Session UdpFlow
with_tail x t = record x { flow = record x.flow { relay = t.flow } }

-- A move of a flow whose relay has been shut down, over the server as the others have left it.
pub data Next {V : Type 0} (x : Session UdpFlow) (t : Tail) (e : Server V)
    : Session UdpFlow → Tail → Type 0 where
  relayed :
      {u : Tail} (m : RelayMove)
      → Step x.flow.config t u
      → move_udp (relays m) x.phase x e ≡ some (with_tail x u, e)
      → Next x t e (with_tail x u) u
  dropped :
      move_udp drops x.phase x e ≡ some (record x { phase = untracked }, untrack_udp x.id e)
      → Next x t e (record x { phase = untracked }) t
  released :
      move_udp releases x.phase x e ≡ some (record x { phase = gone }, release_slot e)
      → Next x t e (record x { phase = gone }) t

-- A sequence of moves; the other goroutines may change the server between them.
pub data Run (V : Type 0) : Session UdpFlow → Tail → ℕ → Session UdpFlow → Tail → Type 0 where
  here : {x : Session UdpFlow} {t : Tail} → Run V x t 0 x t
  next :
      {x y z : Session UdpFlow} {t u v : Tail} {n : ℕ} (e : Server V)
      → Next x t e y u
      → Run V y u n z v
      → Run V x t (suc n) z v

-- The deferred calls that are left.
abbrev phase_weight : Phase → ℕ
phase_weight registered = 3
phase_weight piping = 2
phase_weight untracked = 1
phase_weight gone = 0

drops-phase :
    {V : Type 0} (phase : Phase) (x : Session UdpFlow) (e : Server V)
    (r : Session UdpFlow × Server V)
    → move_udp drops phase x e ≡ some r
    → phase ≡ piping
unfolding move_udp
drops-phase registered x e r h = absurd (cc h)
drops-phase piping x e r h = refl
drops-phase untracked x e r h = absurd (cc h)
drops-phase gone x e r h = absurd (cc h)

releases-phase :
    {V : Type 0} (phase : Phase) (x : Session UdpFlow) (e : Server V)
    (r : Session UdpFlow × Server V)
    → move_udp releases phase x e ≡ some r
    → phase ≡ untracked
unfolding move_udp
releases-phase registered x e r h = absurd (cc h)
releases-phase piping x e r h = absurd (cc h)
releases-phase untracked x e r h = refl
releases-phase gone x e r h = absurd (cc h)

-- The steps of `pipeUDP` among the moves of a run, and what else holds along it.
record Split (x : Session UdpFlow) (t : Tail) (n : ℕ) (y : Session UdpFlow) (u : Tail)
    : Type 0 where
  pub steps : ℕ
  pub tail : Tail.Run x.flow.config t steps u
  pub total : n + phase_weight y.phase ≤ steps + phase_weight x.phase
  pub same_config : y.flow.config ≡ x.flow.config
  pub relay : x.flow.relay ≡ t.flow → y.flow.relay ≡ u.flow
  pub deferred : phase_weight x.phase ≤ 2 → phase_weight y.phase ≤ 2

Run-Split :
    {V : Type 0} {x y : Session UdpFlow} {t u : Tail} {n : ℕ} → Run V x t n y u → Split x t n y u
Run-Split here = record {
  steps = 0;
  tail = stop;
  total = omega arith;
  same_config = refl;
  relay = λ h. h;
  deferred = λ h. h;
}
Run-Split (next {x} {y} {z} {t} {u} {v} {n} e (relayed m s ran) rest) =
    let w = Run-Split rest in
    let total = w.total in
    record {
      steps = suc w.steps;
      tail = more s w.tail;
      total = omega arith;
      same_config = w.same_config;
      relay = λ h. w.relay refl;
      deferred = w.deferred;
    }
Run-Split (next {x} {y} {z} {t} {u} {v} {n} e (dropped ran) rest) =
    let w = Run-Split rest in
    let total = w.total in
    let phase = drops-phase x.phase x e _ ran in
    record {
      steps = w.steps;
      tail = w.tail;
      total = rw (phase) (omega arith);
      same_config = w.same_config;
      relay = w.relay;
      deferred = λ h. w.deferred (omega arith);
    }
Run-Split (next {x} {y} {z} {t} {u} {v} {n} e (released ran) rest) =
    let w = Run-Split rest in
    let total = w.total in
    let phase = releases-phase x.phase x e _ ran in
    record {
      steps = w.steps;
      tail = w.tail;
      total = rw (phase) (omega arith);
      same_config = w.same_config;
      relay = w.relay;
      deferred = λ h. w.deferred (omega arith);
    }

loops_on : (s : Stage) (o : Go Udp) (g : Udp) → s ≡ looping → o ≡ ret g → when_looping s o ≡ some g
loops_on s o g h k = rw (h, k) refl

-- Each step of the tail is a move of the relay.
Step-relay_step :
    {c : Config} {t u : Tail} → Step c t u → (m : RelayMove) × (relay_step c m t.flow ≡ some u.flow)
unfolding relay_step
Step-relay_step (sends packet ok busy loops ran) = (asks packet ok, loops_on _ _ _ loops ran)
Step-relay_step (Tail.app_fails ok idle loops ran) = (app_fails ok, loops_on _ _ _ loops ran)
Step-relay_step (receives packet from ok busy loops ran) =
    (hears packet from ok, loops_on _ _ _ loops ran)
Step-relay_step (Tail.socket_fails ok idle loops ran) = (socket_fails ok, loops_on _ _ _ loops ran)
Step-relay_step (Tail.control_ends loops) = (control_ends, rw (loops) refl)
Step-relay_step (Tail.leaves who ready) = (leaves who, rw (ready) refl)
Step-relay_step (Tail.returns hs hr running) = (returns, rw (hs, hr, running) refl)

-- Whatever the others have done to the server, the flow has a next move.
abbrev pub HasNext : (V : Type 0) → Session UdpFlow → Tail → Type 0
HasNext V x t = (e : Server V) → (y : Session UdpFlow) × (u : Tail) × Next x t e y u

relay-HasNext :
    {V : Type 0} (x : Session UdpFlow) (t : Tail)
    → x.flow.relay ≡ t.flow
    → CanMove x.flow.config t
    → HasNext V x t
unfolding move_udp
relay-HasNext x t same (u, s) e =
    let (m, ran) = Step-relay_step s in (_, u, relayed m s (rw (same, ran) refl))

phase-HasNext :
    {V : Type 0} (phase : Phase) (x : Session UdpFlow) (t : Tail)
    → x.phase ≡ phase
    → phase_weight phase ≤ 2
    → x.flow.relay.returned ≡ true
    → HasNext V x t ⊎ (x.phase ≡ gone)
unfolding move_udp
phase-HasNext registered x t h few over = absurd (omega arith)
phase-HasNext piping x t h few over = inl (λ e. (_, t, dropped (rw (h, over) refl)))
phase-HasNext untracked x t h few over = inl (λ e. (_, t, released (rw (h) refl)))
phase-HasNext gone x t h few over = inr h

-- From a state that `pipeUDP` can reach, for a destination of four or sixteen bytes, and if from
-- there on every read of the app's end, of the socket and of the control connection fails, as it
-- does when `shutdown` has closed them: the flow takes at most eleven further steps, in any order
-- and whatever the other goroutines do to the server; and at the end of any such run it has a next
-- step, or it has left the table and released its slot, all three goroutines of `pipeUDP` have
-- ended, it has returned, and everything has been closed exactly once.
pub slot_is_released :
    {V : Type 0} {asked : List (List ℕ)} {heard : List (List ℕ × Option UdpAddr)}
    {x y : Session UdpFlow} {t u : Tail} {n : ℕ}
    → IsAddress x.flow.config.dst_ip
    → Runs.Reach x.flow.config asked heard t.flow
    → x.flow.relay ≡ t.flow
    → x.phase ≡ piping
    → Run V x t n y u
    → (n ≤ 11) × (HasNext V y u ⊎ ((y.phase ≡ gone) × IsDone y.flow.relay))
slot_is_released {V} {x = x} {y = y} {t = t} {u = u} address reached same phase run =
    let w = Run-Split run in
    let total = w.total in
    let (bound, ends) = relay_ends address reached w.tail in
    let relay = w.relay same in
    let start : phase_weight x.phase ≡ 2 = rw (phase) refl in
    (
      omega arith,
      elim ends [
        | inl moves ↦ inl (relay-HasNext y u relay (rw (w.same_config) moves))
        | inr done ↦
            elim (phase-HasNext y.phase y u refl (w.deferred (omega arith))
              (rw (relay) done.over.has_returned)) [
                | inl moves ↦ inl moves
                | inr off ↦ inr (off, rw (relay) done)
              ]
      ],
    )
