-- ===== src/Engine/Sessions/Ending.antt =====
-- The end of a session after the shutdown of its flow.
use teapod_tun2socks.Prelude.{
  ℕ, suc, ◌+◌, ◌≤◌, ◌<◌, ◌≡◌, refl, ap, ◌∙◌, Bool, true, false, Option, none, some, ◌⊎◌, inl, inr,
  arith, if◌then◌else◌,
}
use teapod_tun2socks.Engine.Pipe.{
  Flow, Direction, upward, downward, Event, Effect, quiet, kill, shut_down, touch, step, finish,
  shutdown, apply, set_lane, Lane,
}
use teapod_tun2socks.Engine.Pipe.Runs.{Ensures, Ensures-some, step-Stepped, finish_lem}
use teapod_tun2socks.Engine.Pipe.Ending.{
  IsUnblocked, flow_weight, step-Falls, step-shut, weight-bound, is_ended-Progress,
}
use teapod_tun2socks.Engine.Forward.{Server, count_tcp, untrack_tcp, uncount_tcp}
use teapod_tun2socks.Engine.Sessions.{
  Phase, registered, piping, untracked, gone, Session, Move, counts, pipes_return, untracks,
  uncounts, pipe_acts, with_flow, move_session,
}
use teapod_tun2socks.Engine.Sessions.Runs.{Ensures-if}

-- Reads of closed connections are unblocked.
abbrev pub IsUnblockedMove : Move → Type 0
IsUnblockedMove (pipe_acts d event) = IsUnblocked event
IsUnblockedMove _ = Unit

-- A sequence of moves of a session; the other goroutines may change the server between them.
pub data Run (V : Type 0) : Session Flow → ℕ → Session Flow → Type 0 where
  stop : {x : Session Flow} → Run V x 0 x
  more :
      {x y z : Session Flow} {n : ℕ} (m : Move) (e e' : Server V)
      → IsUnblockedMove m
      → move_session m x.phase x e ≡ some (y, e')
      → Run V y n z
      → Run V x (suc n) z

abbrev return_weight : Bool → ℕ
return_weight true = 0
return_weight false = 1

-- The moves that a session has left at most.
abbrev phase_weight : Phase → Flow → ℕ
phase_weight registered f = flow_weight f + return_weight f.returned + 3
phase_weight piping f = flow_weight f + return_weight f.returned + 2
phase_weight untracked f = 1
phase_weight gone f = 0

abbrev session_weight : Session Flow → ℕ
session_weight x = phase_weight x.phase x.flow

apply-returned :
    (d : Direction) (effect : Effect) (f : Flow) → (apply d effect f).returned ≡ f.returned
unfolding apply shutdown
apply-returned d quiet f = refl
apply-returned d kill f = refl
apply-returned d shut_down f = ground arith
apply-returned upward (touch now) f = refl
apply-returned downward (touch now) f = refl

set_lane-returned :
    (d : Direction) (own : Lane) (f : Flow) → (set_lane d own f).returned ≡ f.returned
set_lane-returned upward own f = refl
set_lane-returned downward own f = refl

step-returned :
    (d : Direction) (event : Event) (f g : Flow) → step d event f ≡ some g → g.returned ≡ f.returned
step-returned d event f g h =
    let s = step-Stepped d event f g h in
    ap (λ k. k.returned) s.becomes
    ∙ (apply-returned d s.effect (set_lane d s.own f) ∙ set_lane-returned d s.own f)

finish-Falls :
    (f g : Flow)
    → finish f ≡ some g
    → (flow_weight g ≡ flow_weight f) × (g.returned ≡ true) × (f.shut ≡ true → g.shut ≡ true)
unfolding shutdown
finish-Falls f g h =
    let (_, _, becomes) = finish_lem f g h in
    rw (becomes) (ground arith, refl, λ shut. ground arith)

-- After a move the session has fewer left, and its flow is still shut down.
abbrev Falls : {V : Type 0} → Session Flow → Session Flow × Server V → Type 0
Falls x r = (session_weight r.0 < session_weight x) × (r.0.flow.shut ≡ true)

flow-Falls :
    {V : Type 0} (x : Session Flow) (e : Server V) (o : Option Flow)
    → x.phase ≡ piping
    → ((g : Flow)
        → o ≡ some g
        → (flow_weight g + return_weight g.returned
            < flow_weight x.flow + return_weight x.flow.returned)
          × (g.shut ≡ true))
    → Ensures (with_flow o x e) (Falls x)
flow-Falls x e none h k = tt
flow-Falls x e (some g) h k = let (lighter, shut) = k g refl in (rw (h) (omega arith), shut)

move_session-Falls :
    {V : Type 0} (m : Move) (phase : Phase) (x : Session Flow) (e : Server V)
    → x.phase ≡ phase
    → x.flow.shut ≡ true
    → IsUnblockedMove m
    → Ensures (move_session m phase x e) (Falls x)
unfolding move_session
move_session-Falls counts registered x e h shut u = (rw (h) (omega arith), shut)
move_session-Falls (pipe_acts d event) piping x e h shut u =
    flow-Falls x e (step d event x.flow) h (λ g ran.
      let lighter = step-Falls d event x.flow g u ran in
      let same = step-returned d event x.flow g ran in
      (rw (same) (omega arith), step-shut d event x.flow g shut ran))
move_session-Falls pipes_return piping x e h shut u =
    Ensures-if (Falls x) x.flow.returned none (with_flow (finish x.flow) x e) (λ over. tt)
      (λ runs. flow-Falls x e (finish x.flow) h (λ g ran.
        let (same, over, still) = finish-Falls x.flow g ran in
        (rw (same, over, runs) (omega arith), still shut)))
move_session-Falls untracks piping x e h shut u =
    Ensures-if (Falls x) x.flow.returned (some (record x { phase = untracked }, untrack_tcp x.id e))
      none (λ over. (rw (h) (omega arith), shut)) (λ runs. tt)
move_session-Falls uncounts untracked x e h shut u = (rw (h) (omega arith), shut)
move_session-Falls m phase x e h shut u = tt

Run-session_weight :
    {V : Type 0} {x y : Session Flow} {n : ℕ}
    → x.flow.shut ≡ true
    → Run V x n y
    → n + session_weight y ≤ session_weight x
Run-session_weight shut stop = omega arith
Run-session_weight shut (more {x} {y} {z} m e e' u ran rest) =
    let (falls, still) =
      Ensures-some (Falls x) (move_session m x.phase x e) (y, e')
        (move_session-Falls m x.phase x e refl shut u) ran in
    let later = Run-session_weight still rest in omega arith

-- Whatever the others have done to the server, the session has a next move.
abbrev pub HasMove : (V : Type 0) → Session Flow → Type 0
HasMove V x =
    (e : Server V)
    → (m : Move) × (y : Session Flow) × (e' : Server V) × IsUnblockedMove m
      × (move_session m x.phase x e ≡ some (y, e'))

if-taken : {A : Type 0} (b : Bool) (m n : A) → b ≡ true → (if b then m else n) ≡ m
if-taken true m n h = refl
if-taken false m n h = absurd (cc h)

if-other : {A : Type 0} (b : Bool) (m n : A) → b ≡ false → (if b then m else n) ≡ n
if-other true m n h = absurd (cc h)
if-other false m n h = refl

piping-HasMove :
    {V : Type 0} (x : Session Flow) (returned : Bool)
    → x.flow.returned ≡ returned
    → (e : Server V)
    → (m : Move) × (y : Session Flow) × (e' : Server V) × IsUnblockedMove m
      × (move_session m piping x e ≡ some (y, e'))
unfolding move_session
piping-HasMove x true h e = (
  untracks,
  record x { phase = untracked },
  untrack_tcp x.id e,
  tt,
  if-taken x.flow.returned (some (record x { phase = untracked }, untrack_tcp x.id e)) none h,
)
piping-HasMove x false h e = elim (is_ended-Progress x.flow _ _ refl refl) [
  | inl (d, (event, g, unblocked, ran)) ↦
      (pipe_acts d event, record x { flow = g }, e, unblocked, ap (λ o. with_flow o x e) ran)
  | inr (g, ran) ↦ (
    pipes_return,
    record x { flow = g },
    e,
    tt,
    if-other x.flow.returned none (with_flow (finish x.flow) x e) h ∙ ap (λ o. with_flow o x e) ran,
  )
]

phase-HasMove :
    {V : Type 0} (phase : Phase) (x : Session Flow)
    → x.phase ≡ phase
    → HasMove V x ⊎ (x.phase ≡ gone)
unfolding move_session
phase-HasMove registered x h =
    inl (λ e. (counts, record x { phase = piping }, count_tcp e, tt, rw (h) refl))
phase-HasMove piping x h = inl (λ e.
    let (m, y, e', unblocked, ran) = piping-HasMove x x.flow.returned refl e in
    (m, y, e', unblocked, ap (λ p. move_session m p x e) h ∙ ran))
phase-HasMove untracked x h =
    inl (λ e. (uncounts, record x { phase = gone }, uncount_tcp e, tt, rw (h) refl))
phase-HasMove gone x h = inr h

phase_weight-bound : (phase : Phase) (f : Flow) → phase_weight phase f ≤ 22
phase_weight-bound registered f =
    let up = weight-bound f.up.pc in
    let down = weight-bound f.down.pc in
    let one : return_weight f.returned ≤ 1 = ground arith in omega arith
phase_weight-bound piping f =
    let up = weight-bound f.up.pc in
    let down = weight-bound f.down.pc in
    let one : return_weight f.returned ≤ 1 = ground arith in omega arith
phase_weight-bound untracked f = omega arith
phase_weight-bound gone f = omega arith

-- After the shutdown of its flow, and if each read of a closed connection returns EOF or an error
-- that is no timeout: the goroutine of a TCP flow takes at most 22 further steps, in any order of
-- the pipes and whatever the other goroutines do to the server; and at the end of any such run it
-- has either a next step, or has left the table and the count and is at its end.
pub session_ends :
    {V : Type 0} {x y : Session Flow} {n : ℕ}
    → x.flow.shut ≡ true
    → Run V x n y
    → (n ≤ 22) × (HasMove V y ⊎ (y.phase ≡ gone))
session_ends {x = x} {y = y} shut run =
    let total = Run-session_weight shut run in
    let bound = phase_weight-bound x.phase x.flow in (omega arith, phase-HasMove y.phase y refl)
