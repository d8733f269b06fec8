-- ===== src/Engine/Pipe/Ending.antt =====
-- The end of the two pipes after the shutdown of a flow. `net.Conn` promises that `Close` unblocks a
-- read, which then returns an error; that error is no timeout.
use teapod_tun2socks.Prelude.{
  ℕ, suc, ◌+◌, ◌<◌, ℤ, ◌≡◌, refl, [], ◌∷◌, true, false, Option, none, some, ◌⊎◌, inl, inr,
  Bool-cases, arith, ◌≤◌, ◌∙◌,
}
use teapod_tun2socks.Engine.Idle.{idle_verdict}
use teapod_tun2socks.Engine.Pipe.{
  ReadError, timed_out, eof, broken, Pc, reading, stamping, writing, failing, judging, closing,
  ended, Lane, Flow, Direction, upward, downward, Event, read_returns, clock, write_returns,
  close_write_returns, go_on, Effect, quiet, kill, shut_down, touch, after, judge, advance,
  shutdown, apply, step, lane, set_lane, is_ended, finish, Bool,
}
use teapod_tun2socks.Engine.Pipe.Runs.{Ensures, Ensures-some, step-Stepped}

-- What a read of a closed connection returns.
abbrev pub IsUnblocked : Event → Type 0
IsUnblocked (read_returns chunk err) = (err ≡ some eof) ⊎ (err ≡ some broken)
IsUnblocked _ = Unit

-- A sequence of steps of the pipes, in which reads of closed connections are unblocked.
pub data Run : Flow → ℕ → Flow → Type 0 where
  stop : {f : Flow} → Run f 0 f
  more :
      {f g h : Flow} {n : ℕ} (d : Direction) (e : Event)
      → (f.shut ≡ true → IsUnblocked e)
      → step d e f ≡ some g
      → Run g n h
      → Run f (suc n) h

abbrev error_weight : ReadError → ℕ
error_weight timed_out = 7
error_weight eof = 2
error_weight broken = 2

abbrev after_weight : Option ReadError → ℕ
after_weight none = 5
after_weight (some e) = error_weight e

-- The steps that a pipe has left at most.
abbrev weight : Pc → ℕ
weight reading = 5
weight (stamping chunk err) = after_weight err + 2
weight (writing chunk err) = after_weight err + 1
weight (failing e) = error_weight e
weight (judging now tx) = 6
weight closing = 1
weight ended = 0

after-weight : (err : Option ReadError) → weight (after err) ≡ after_weight err
after-weight none = refl
after-weight (some e) = refl

abbrev Falls : Pc → Lane × Effect → Type 0
Falls pc (l, effect) = weight l.pc < weight pc

judge-Falls : (now tx rx : ℤ) (l : Lane) → weight (judge now tx rx l).0.pc < 6
unfolding judge
judge-Falls now tx rx l = elim (Bool-cases (idle_verdict tx rx now).0) [
  | inl expired ↦ rw (expired, judge) (omega arith)
  | inr lives ↦ rw (lives, judge) (omega arith)
]

advance-Falls :
    (pc : Pc) (e : Event) (tx rx : ℤ) (l : Lane)
    → IsUnblocked e
    → Ensures (advance pc e tx rx l) (Falls pc)
unfolding advance
advance-Falls reading (read_returns [] err) tx rx l u = ground (arith, after-weight err)
advance-Falls reading (read_returns (b ∷ chunk) err) tx rx l u = ground arith
advance-Falls (stamping chunk err) (clock now) tx rx l u = omega arith
advance-Falls (writing chunk err) (write_returns none) tx rx l u = omega (arith, after-weight err)
advance-Falls (writing chunk none) (write_returns (some n)) tx rx l u = omega arith
advance-Falls (writing chunk (some timed_out)) (write_returns (some n)) tx rx l u = omega arith
advance-Falls (writing chunk (some eof)) (write_returns (some n)) tx rx l u = omega arith
advance-Falls (writing chunk (some broken)) (write_returns (some n)) tx rx l u = omega arith
advance-Falls (failing timed_out) (clock now) tx rx l u = omega arith
advance-Falls (failing eof) (close_write_returns true) tx rx l u = omega arith
advance-Falls (failing eof) (close_write_returns false) tx rx l u = omega arith
advance-Falls (failing broken) go_on tx rx l u = omega arith
advance-Falls (judging now tx) go_on _ rx l u = judge-Falls now tx rx l
advance-Falls closing go_on tx rx l u = omega arith
advance-Falls pc e tx rx l u = tt

-- The steps that both pipes have left at most.
abbrev pub flow_weight : Flow → ℕ
flow_weight f = weight f.up.pc + weight f.down.pc

apply-flow_weight :
    (d : Direction) (effect : Effect) (f : Flow) → flow_weight (apply d effect f) ≡ flow_weight f
unfolding apply shutdown
apply-flow_weight d quiet f = refl
apply-flow_weight d kill f = refl
apply-flow_weight d shut_down f = ground arith
apply-flow_weight upward (touch now) f = refl
apply-flow_weight downward (touch now) f = refl

apply-shut :
    (d : Direction) (effect : Effect) (f : Flow) → f.shut ≡ true → (apply d effect f).shut ≡ true
unfolding apply shutdown
apply-shut d quiet f h = h
apply-shut d kill f h = h
apply-shut d shut_down f h = ground arith
apply-shut upward (touch now) f h = h
apply-shut downward (touch now) f h = h

lane-flow_weight :
    (d : Direction) (own : Lane) (f : Flow)
    → weight own.pc < weight (lane d f).pc
    → flow_weight (set_lane d own f) < flow_weight f
lane-flow_weight upward own f h = omega arith
lane-flow_weight downward own f h = omega arith

set_lane-shut : (d : Direction) (own : Lane) (f : Flow) → (set_lane d own f).shut ≡ f.shut
set_lane-shut upward own f = refl
set_lane-shut downward own f = refl

pub step-Falls :
    (d : Direction) (e : Event) (f g : Flow)
    → IsUnblocked e
    → step d e f ≡ some g
    → flow_weight g < flow_weight f
step-Falls d e f g u h =
    let s = step-Stepped d e f g h in
    let falls =
      Ensures-some (Falls (lane d f).pc) (advance (lane d f).pc e f.last_tx f.last_rx (lane d f))
        (s.own, s.effect) (advance-Falls (lane d f).pc e f.last_tx f.last_rx (lane d f) u)
        s.advanced in
    let lighter = lane-flow_weight d s.own f falls in
    rw (s.becomes, apply-flow_weight d s.effect (set_lane d s.own f)) lighter

pub step-shut :
    (d : Direction) (e : Event) (f g : Flow) → f.shut ≡ true → step d e f ≡ some g → g.shut ≡ true
step-shut d e f g shut h =
    let s = step-Stepped d e f g h in
    rw (s.becomes) (apply-shut d s.effect (set_lane d s.own f) (set_lane-shut d s.own f ∙ shut))

Run-flow_weight :
    {f g : Flow} {n : ℕ} → Run f n g → f.shut ≡ true → n + flow_weight g ≤ flow_weight f
Run-flow_weight stop shut = omega arith
Run-flow_weight (more {f} {g} {h} d e unblocked ran rest) shut =
    let lighter = step-Falls d e f g (unblocked shut) ran in
    let more_steps = Run-flow_weight rest (step-shut d e f g shut ran) in omega arith

pub weight-bound : (pc : Pc) → weight pc ≤ 9
weight-bound reading = omega arith
weight-bound (stamping chunk none) = omega arith
weight-bound (stamping chunk (some timed_out)) = omega arith
weight-bound (stamping chunk (some eof)) = omega arith
weight-bound (stamping chunk (some broken)) = omega arith
weight-bound (writing chunk none) = omega arith
weight-bound (writing chunk (some timed_out)) = omega arith
weight-bound (writing chunk (some eof)) = omega arith
weight-bound (writing chunk (some broken)) = omega arith
weight-bound (failing timed_out) = omega arith
weight-bound (failing eof) = omega arith
weight-bound (failing broken) = omega arith
weight-bound (judging now tx) = omega arith
weight-bound closing = omega arith
weight-bound ended = omega arith

-- A pipe that has not ended waits for an event that can come.
abbrev pub CanMove : Direction → Flow → Type 0
CanMove d f = (e : Event) × (g : Flow) × IsUnblocked e × (step d e f ≡ some g)

advance-Moves :
    (pc : Pc) (tx rx : ℤ) (l : Lane)
    → is_ended pc ≡ false
    → (e : Event) × (r : Lane × Effect) × IsUnblocked e × (advance pc e tx rx l ≡ some r)
unfolding advance
advance-Moves reading tx rx l h = (read_returns [] (some broken), _, inr refl, refl)
advance-Moves (stamping chunk err) tx rx l h = (clock tx, _, tt, refl)
advance-Moves (writing chunk err) tx rx l h = (write_returns none, _, tt, refl)
advance-Moves (failing timed_out) tx rx l h = (clock tx, _, tt, refl)
advance-Moves (failing eof) tx rx l h = (close_write_returns true, _, tt, refl)
advance-Moves (failing broken) tx rx l h = (go_on, _, tt, refl)
advance-Moves (judging now t) tx rx l h = (go_on, _, tt, refl)
advance-Moves closing tx rx l h = (go_on, _, tt, refl)
advance-Moves ended tx rx l h = absurd (cc h)

step-advance :
    (d : Direction) (e : Event) (f : Flow) (r : Lane × Effect)
    → advance (lane d f).pc e f.last_tx f.last_rx (lane d f) ≡ some r
    → step d e f ≡ some (apply d r.1 (set_lane d r.0 f))
unfolding step
step-advance d e f (own, effect) ran = rw (ran, step) refl

lane-CanMove : (d : Direction) (f : Flow) → is_ended (lane d f).pc ≡ false → CanMove d f
lane-CanMove d f h =
    let (e, r, unblocked, ran) = advance-Moves (lane d f).pc f.last_tx f.last_rx (lane d f) h in
    (e, apply d r.1 (set_lane d r.0 f), unblocked, step-advance d e f r ran)

pub is_ended-Progress :
    (f : Flow)
    → (up_ended down_ended : Bool) → is_ended f.up.pc ≡ up_ended
    → is_ended f.down.pc ≡ down_ended
    → ((d : Direction) × CanMove d f) ⊎ ((h : Flow) × (finish f ≡ some h))
unfolding finish
is_ended-Progress f false _ up down = inl (upward, lane-CanMove upward f up)
is_ended-Progress f true false up down = inl (downward, lane-CanMove downward f down)
is_ended-Progress f true true up down =
    inr (record (shutdown f) { returned = true }, rw (up, down, finish) refl)

-- After `shutdown` has closed both ends, and if each read of a closed connection returns EOF or an
-- error that is no timeout: the pipes take at most 18 further steps, in any order; and at the end
-- of any such run either `wg.Wait()` is over and `pipeConnections` returns, or a pipe can take its
-- next step.
pub pipe_ends :
    (f g : Flow) (n : ℕ)
    → f.shut ≡ true
    → Run f n g
    → (n ≤ 18) × (((d : Direction) × CanMove d g) ⊎ ((h : Flow) × (finish g ≡ some h)))
pipe_ends f g n shut run =
    let total = Run-flow_weight run shut in
    let up = weight-bound f.up.pc in
    let down = weight-bound f.down.pc in
    (omega arith, is_ended-Progress g (is_ended g.up.pc) (is_ended g.down.pc) refl refl)
