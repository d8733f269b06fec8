-- ===== src/Engine/Pipe/Closing.antt =====
-- When the two ends of a TCP flow are closed.
use teapod_tun2socks.Prelude.{
  ℤ, ◌≡◌, refl, [], ◌∷◌, Bool, true, false, Option, none, some, ◌⊎◌, inl, inr, Bool-cases,
  if◌then◌else◌, arith, ◌≤◌,
}
use teapod_tun2socks.Engine.Idle.{idle_verdict}
use teapod_tun2socks.Engine.Pipe.{
  timed_out, eof, broken, Pc, reading, stamping, writing, failing, judging, closing, ended, Lane,
  Flow, upward, downward, Event, read_returns, clock, write_returns, close_write_returns, go_on,
  Effect, quiet, kill, shut_down, touch, after, judge, advance, shutdown, apply, set_lane, is_ended,
  ReadError, Direction, ℕ, step,
}
use teapod_tun2socks.Engine.Pipe.Runs.{
  started, Ensures, Reach, stepped, step-Stepped, Ensures-some, finished, finish_lem,
}

abbrev is_shut_down : Effect → Bool
is_shut_down shut_down = true
is_shut_down _ = false

-- The ways in which a step can leave a lane: it goes on, it has ended by passing an end of file on,
-- or it has ended by a shutdown.
abbrev Outcome : Lane → Lane × Effect → Type 0
Outcome l (m, effect) =
    ((is_ended m.pc ≡ false) × (m.fin ≡ l.fin) × (is_shut_down effect ≡ false))
    ⊎ (((is_ended m.pc ≡ true) × (m.fin ≡ true) × (is_shut_down effect ≡ false))
        ⊎ ((is_ended m.pc ≡ true) × (m.fin ≡ l.fin) × (is_shut_down effect ≡ true)))

after-running : (err : Option ReadError) → is_ended (after err) ≡ false
after-running none = refl
after-running (some e) = refl

judge-Outcome : (now tx rx : ℤ) (l : Lane) → Outcome l (judge now tx rx l)
unfolding judge
judge-Outcome now tx rx l = elim (Bool-cases (idle_verdict tx rx now).0) [
  | inl expired ↦ elim (Bool-cases (idle_verdict tx rx now).1) [
    | inl zombie ↦ rw (expired, zombie, judge) (inl (refl, refl, refl))
    | inr silent ↦ rw (expired, silent, judge) (inl (refl, refl, refl))
  ]
  | inr lives ↦ rw (lives, judge) (inl (refl, refl, refl))
]

advance-Outcome :
    (pc : Pc) (e : Event) (tx rx : ℤ) (l : Lane) → Ensures (advance pc e tx rx l) (Outcome l)
unfolding advance
advance-Outcome reading (read_returns [] err) tx rx l = inl (after-running err, refl, refl)
advance-Outcome reading (read_returns (b ∷ chunk) err) tx rx l = inl (refl, refl, refl)
advance-Outcome (stamping chunk err) (clock now) tx rx l = inl (refl, refl, refl)
advance-Outcome (writing chunk err) (write_returns none) tx rx l =
    inl (after-running err, refl, refl)
advance-Outcome (writing chunk err) (write_returns (some n)) tx rx l = inl (refl, refl, refl)
advance-Outcome (failing timed_out) (clock now) tx rx l = inl (refl, refl, refl)
advance-Outcome (failing eof) (close_write_returns true) tx rx l = inr (inl (refl, refl, refl))
advance-Outcome (failing eof) (close_write_returns false) tx rx l = inl (refl, refl, refl)
advance-Outcome (failing broken) go_on tx rx l = inl (refl, refl, refl)
advance-Outcome (judging now tx) go_on _ rx l = judge-Outcome now tx rx l
advance-Outcome closing go_on tx rx l = inr (inr (refl, refl, refl))
advance-Outcome pc e tx rx l = tt

-- A pipe that has ended takes no step.
ended_stuck :
    (pc : Pc) (e : Event) (tx rx : ℤ) (l : Lane) (r : Lane × Effect)
    → advance pc e tx rx l ≡ some r
    → is_ended pc ≡ false
unfolding advance
ended_stuck ended e tx rx l r h = absurd (cc h)
ended_stuck pc e tx rx l r h = refl

-- A pipe that has ended without passing an end of file on.
abbrev pub GaveUp : Lane → Type 0
GaveUp l = (is_ended l.pc ≡ true) × (l.fin ≡ false)

pub record IsOrderly (f : Flow) : Type 0 where
  pub app_once : f.app_closes ≡ (if f.shut then 1 else 0)
  pub proxy_once : f.proxy_closes ≡ (if f.shut then 1 else 0)
  pub up_ends : is_ended f.up.pc ≡ true → f.up.fin ≡ false → f.shut ≡ true
  pub down_ends : is_ended f.down.pc ≡ true → f.down.fin ≡ false → f.shut ≡ true
  pub up_fin : f.up.fin ≡ true → is_ended f.up.pc ≡ true
  pub down_fin : f.down.fin ≡ true → is_ended f.down.pc ≡ true
  pub cause :
      f.shut ≡ true
      → GaveUp f.up ⊎ (GaveUp f.down ⊎ ((is_ended f.up.pc ≡ true) × (is_ended f.down.pc ≡ true)))
  pub closed : f.returned ≡ true → f.shut ≡ true

-- The state after a step of either pipe.
up-IsOrderly :
    (f : Flow) (m : Lane) (effect : Effect)
    → IsOrderly f
    → is_ended f.up.pc ≡ false
    → Outcome f.up (m, effect)
    → IsOrderly (apply upward effect (set_lane upward m f))
unfolding apply shutdown
up-IsOrderly f m quiet v running o = ground arith
up-IsOrderly f m kill v running o = ground arith
up-IsOrderly f m shut_down v running o = ground arith
up-IsOrderly f m (touch now) v running o = ground arith

down-IsOrderly :
    (f : Flow) (m : Lane) (effect : Effect)
    → IsOrderly f
    → is_ended f.down.pc ≡ false
    → Outcome f.down (m, effect)
    → IsOrderly (apply downward effect (set_lane downward m f))
unfolding apply shutdown
down-IsOrderly f m quiet v running o = ground arith
down-IsOrderly f m kill v running o = ground arith
down-IsOrderly f m shut_down v running o = ground arith
down-IsOrderly f m (touch now) v running o = ground arith

step-IsOrderly :
    (d : Direction) (e : Event) (f g : Flow) → IsOrderly f → step d e f ≡ some g → IsOrderly g
step-IsOrderly upward e f g v h =
    let s = step-Stepped upward e f g h in
    rw s.becomes (
      up-IsOrderly f s.own s.effect v
        (ended_stuck f.up.pc e f.last_tx f.last_rx f.up (s.own, s.effect) s.advanced)
        (Ensures-some (Outcome f.up) _ (s.own, s.effect)
          (advance-Outcome f.up.pc e f.last_tx f.last_rx f.up) s.advanced))
step-IsOrderly downward e f g v h =
    let s = step-Stepped downward e f g h in
    rw s.becomes (
      down-IsOrderly f s.own s.effect v
        (ended_stuck f.down.pc e f.last_tx f.last_rx f.down (s.own, s.effect) s.advanced)
        (Ensures-some (Outcome f.down) _ (s.own, s.effect)
          (advance-Outcome f.down.pc e f.last_tx f.last_rx f.down) s.advanced))

finish-IsOrderly :
    (f : Flow)
    → IsOrderly f
    → is_ended f.up.pc ≡ true
    → is_ended f.down.pc ≡ true
    → IsOrderly (record (shutdown f) { returned = true })
unfolding shutdown
finish-IsOrderly f v up down = ground arith

Reach-IsOrderly : {now : ℤ} {zombie_kills : ℕ} {f : Flow} → Reach now zombie_kills f → IsOrderly f
Reach-IsOrderly started = ground arith
Reach-IsOrderly (stepped {f} {g} d e r h) = step-IsOrderly d e f g (Reach-IsOrderly r) h
Reach-IsOrderly (finished {f} {g} r _ h) =
    let (up, down, becomes) = finish_lem f g h in
    rw becomes (finish-IsOrderly f (Reach-IsOrderly r) up down)

-- Nothing of a flow is left open or closed twice.
pub record IsSettled (f : Flow) : Type 0 where
  pub at_most_once : (f.app_closes ≤ 1) × (f.proxy_closes ≤ 1)
  pub together : f.app_closes ≡ f.proxy_closes
  pub in_the_end : f.returned ≡ true → (f.app_closes ≡ 1) × (f.proxy_closes ≡ 1)
  pub not_at_eof :
      f.app_closes ≡ 1
      → GaveUp f.up ⊎ (GaveUp f.down ⊎ ((is_ended f.up.pc ≡ true) × (is_ended f.down.pc ≡ true)))

-- In every interleaving: each end is closed at most once, and both together; when
-- `pipeConnections` has returned, both are closed; and before both pipes have ended they are closed
-- only if a pipe has ended without passing an end of file on, so after a half-close the other
-- direction still runs.
pub pipe_settles : {now : ℤ} {zombie_kills : ℕ} {f : Flow} → Reach now zombie_kills f → IsSettled f
pipe_settles {f = f} r = let v = Reach-IsOrderly r in ground arith
