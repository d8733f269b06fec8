-- ===== src/Engine/Lifecycle/Ending.antt =====
-- The end of an engine after a call of `Stop` that has won.
use teapod_tun2socks.Prelude.{
  ℕ, suc, ◌+◌, ◌<◌, ◌≡◌, Bool, true, false, some, Bool-cases, inl, inr, arith, ◌≤◌, zero, ◌&&◌, not,
  ◌⊎◌, refl, ap, ◌∙◌,
}
use teapod_tun2socks.Engine.Pipe.Runs.{Ensures, Ensures-some}
use teapod_tun2socks.Engine.Lifecycle.{
  Starter, not_run, entered, reading, waiting, returned, Stopper, idle, won, cancelled, signalled,
  tun_closed, stack_closed, finished, LoopState, ended, Life, start_from, Action, request, act,
  writer_stops, Reach, reader_fails, stop_from, reader_stops, run_stop, is_looping, call_stop, acts,
  start_runs, stop_runs, stop_goes_on, read_stops, read_fails, write_stops,
}
use teapod_tun2socks.Engine.Lifecycle.Invariant.{is_idle, IsOrderly, Reach-IsOrderly}

-- The engine's own goroutines; a new call of `Stop` is none of their actions.
abbrev pub is_own : Action → Bool
is_own request = false
is_own _ = true

pub data Run : Life → ℕ → Life → Type 0 where
  stay : {l : Life} → Run l 0 l
  more :
      {l m k : Life} {n : ℕ} (a : Action)
      → is_own a ≡ true
      → act a l ≡ some m
      → Run m n k
      → Run l (suc n) k

abbrev starter_weight : Starter → ℕ
starter_weight not_run = 4
starter_weight entered = 3
starter_weight reading = 2
starter_weight waiting = 1
starter_weight returned = 0

abbrev stopper_weight : Stopper → ℕ
stopper_weight idle = 7
stopper_weight won = 6
stopper_weight cancelled = 5
stopper_weight signalled = 4
stopper_weight tun_closed = 3
stopper_weight stack_closed = 2
stopper_weight finished = 0

abbrev loop_weight : LoopState → ℕ
loop_weight ended = 0
loop_weight _ = 1

-- The actions that are left at most.
abbrev weight : Life → ℕ
weight l =
    starter_weight l.starter
    + stopper_weight l.stopper
    + loop_weight l.reader
    + loop_weight l.writer
    + l.stop_calls

-- A `Stop` has won, and a step brings the end nearer.
record Falls (l m : Life) : Type 0 where
  lighter : weight m < weight l
  stopping : is_idle m.stopper ≡ false

start_from-Falls :
    (s : Starter) (l : Life)
    → l.starter ≡ s
    → is_idle l.stopper ≡ false
    → IsOrderly l
    → Ensures (start_from s l) (Falls l)
unfolding start_from
start_from-Falls not_run l h stopping v = ground arith
start_from-Falls entered l h stopping v = ground arith
start_from-Falls reading l h stopping v = ground arith
start_from-Falls waiting l h stopping v = elim (Bool-cases l.stop_open) [
  | inl still_open ↦ rw (still_open, start_from) tt
  | inr closed ↦ rw (closed, start_from) (ground arith)
]
start_from-Falls returned l h stopping v = tt

run_stop-Falls :
    (k : ℕ) (l : Life)
    → l.stop_calls ≡ k
    → is_idle l.stopper ≡ false
    → IsOrderly l
    → Ensures (run_stop k l) (Falls l)
unfolding run_stop call_stop
run_stop-Falls zero l h stopping v = tt
run_stop-Falls (suc k) l h stopping v =
    let down : l.running ≡ false = ground (arith, v.runs) in
    rw (down, run_stop, call_stop) (ground arith)

stop_from-Falls :
    (s : Stopper) (l : Life)
    → l.stopper ≡ s
    → is_idle l.stopper ≡ false
    → IsOrderly l
    → Ensures (stop_from s l) (Falls l)
unfolding stop_from
stop_from-Falls idle l h stopping v = tt
stop_from-Falls won l h stopping v = ground arith
stop_from-Falls cancelled l h stopping v = ground arith
stop_from-Falls signalled l h stopping v = ground arith
stop_from-Falls tun_closed l h stopping v = ground arith
stop_from-Falls stack_closed l h stopping v = elim (Bool-cases (is_looping l.reader)) [
  | inl reads ↦ rw (reads, stop_from) tt
  | inr quiet ↦ elim (Bool-cases (is_looping l.writer)) [
    | inl writes ↦ rw (quiet, writes, stop_from) tt
    | inr silent ↦ rw (quiet, silent, stop_from) (ground arith)
  ]
]
stop_from-Falls finished l h stopping v = tt

reader_stops-Falls : (l : Life) → is_idle l.stopper ≡ false → Ensures (reader_stops l) (Falls l)
unfolding reader_stops
reader_stops-Falls l stopping = elim (Bool-cases (is_looping l.reader && not l.stop_open)) [
  | inl stops ↦ rw (stops, reader_stops) (ground arith)
  | inr goes_on ↦ rw (goes_on, reader_stops) tt
]

reader_fails-Falls :
    (l : Life) → is_idle l.stopper ≡ false → IsOrderly l → Ensures (reader_fails l) (Falls l)
unfolding reader_fails
reader_fails-Falls l stopping v =
    let down : l.running ≡ false = ground (arith, v.runs) in
    elim (Bool-cases (is_looping l.reader)) [
      | inl fails ↦ rw (fails, down, reader_fails) (ground arith)
      | inr gone ↦ rw (gone, reader_fails) tt
    ]

writer_stops-Falls : (l : Life) → is_idle l.stopper ≡ false → Ensures (writer_stops l) (Falls l)
unfolding writer_stops
writer_stops-Falls l stopping = elim (Bool-cases (is_looping l.writer && not l.ctx_live)) [
  | inl stops ↦ rw (stops, writer_stops) (ground arith)
  | inr goes_on ↦ rw (goes_on, writer_stops) tt
]

act-Falls :
    (a : Action) (l : Life)
    → is_own a ≡ true
    → is_idle l.stopper ≡ false
    → IsOrderly l
    → Ensures (act a l) (Falls l)
unfolding act
act-Falls start_runs l own stopping v = start_from-Falls l.starter l refl stopping v
act-Falls stop_runs l own stopping v = run_stop-Falls l.stop_calls l refl stopping v
act-Falls stop_goes_on l own stopping v = stop_from-Falls l.stopper l refl stopping v
act-Falls read_stops l own stopping v = reader_stops-Falls l stopping
act-Falls read_fails l own stopping v = reader_fails-Falls l stopping v
act-Falls write_stops l own stopping v = writer_stops-Falls l stopping
act-Falls request l own stopping v = absurd (cc own)

Run-weight :
    {l m : Life} {n : ℕ}
    → Run l n m
    → Reach l
    → is_idle l.stopper ≡ false
    → (n + weight m ≤ weight l) × (is_idle m.stopper ≡ false) × Reach m
Run-weight stay r stopping = (omega arith, stopping, r)
Run-weight (more {l} {m} {k} a own ran rest) r stopping =
    let falls =
      Ensures-some (Falls l) (act a l) m (act-Falls a l own stopping (Reach-IsOrderly r)) ran in
    let lighter = falls.lighter in
    let (steps, still, reached) = Run-weight rest (acts a r ran) falls.stopping in
    (omega arith, still, reached)

-- One of the engine's own goroutines can go on.
abbrev pub CanAct : Life → Type 0
CanAct l = (a : Action) × (m : Life) × (is_own a ≡ true) × (act a l ≡ some m)

-- Nothing of the engine is left.
pub record IsDown (l : Life) : Type 0 where
  pub not_running : l.running ≡ false
  pub all_closed :
      (l.ctx_live ≡ false) × (l.stop_open ≡ false) × (l.tun_open ≡ false) × (l.stack_open ≡ false)
  pub start_back : l.starter ≡ returned
  pub stop_done : l.stopper ≡ finished
  pub loops_ended : (l.reader ≡ ended) × (l.writer ≡ ended)

can_start : (s : Starter) (l m : Life) → l.starter ≡ s → start_from s l ≡ some m → CanAct l
unfolding act
can_start s l m h ran = (start_runs, m, refl, ap (λ x. start_from x l) h ∙ ran)

can_stop : (s : Stopper) (l m : Life) → l.stopper ≡ s → stop_from s l ≡ some m → CanAct l
unfolding act
can_stop s l m h ran = (stop_goes_on, m, refl, ap (λ x. stop_from x l) h ∙ ran)

can_read : (l : Life) → is_looping l.reader ≡ true → l.stop_open ≡ false → CanAct l
unfolding act reader_stops
can_read l looks closed =
    (read_stops, record l { reader = ended }, refl, rw (looks, closed, act, reader_stops) refl)

can_write : (l : Life) → is_looping l.writer ≡ true → l.ctx_live ≡ false → CanAct l
unfolding act writer_stops
can_write l looks closed =
    (write_stops, record l { writer = ended }, refl, rw (looks, closed, act, writer_stops) refl)

-- Both loops are over, or one of them can end.
loops_end :
    (l : Life)
    → l.stop_open ≡ false
    → l.ctx_live ≡ false
    → CanAct l ⊎ ((is_looping l.reader ≡ false) × (is_looping l.writer ≡ false))
loops_end l closed cancelled_now = elim (Bool-cases (is_looping l.reader)) [
  | inl reads ↦ inl (can_read l reads closed)
  | inr quiet ↦ elim (Bool-cases (is_looping l.writer)) [
    | inl writes ↦ inl (can_write l writes cancelled_now)
    | inr silent ↦ inr (quiet, silent)
  ]
]

start_ends :
    (s : Starter) (l : Life)
    → l.starter ≡ s
    → l.stopper ≡ finished
    → IsOrderly l
    → CanAct l ⊎ IsDown l
unfolding start_from
start_ends not_run l h stop v = absurd (ground (arith, v.none_before))
start_ends entered l h stop v = inl (can_start entered l _ h refl)
start_ends reading l h stop v = inl (can_start reading l _ h refl)
start_ends waiting l h stop v =
    let closed : l.stop_open ≡ false = ground (arith, v.stop) in
    inl (can_start waiting l (record l { starter = returned }) h (rw (closed, start_from) refl))
start_ends returned l h stop v =
    elim (loops_end l (ground (arith, v.stop)) (ground (arith, v.ctx))) [
      | inl moves ↦ inl moves
      | inr (quiet, silent) ↦ inr (ground arith)
    ]

stop_ends :
    (s : Stopper) (l : Life)
    → l.stopper ≡ s
    → is_idle l.stopper ≡ false
    → IsOrderly l
    → CanAct l ⊎ IsDown l
unfolding stop_from
stop_ends idle l h stopping v = absurd (ground arith)
stop_ends won l h stopping v = inl (can_stop won l _ h refl)
stop_ends cancelled l h stopping v = inl (can_stop cancelled l _ h refl)
stop_ends signalled l h stopping v = inl (can_stop signalled l _ h refl)
stop_ends tun_closed l h stopping v = inl (can_stop tun_closed l _ h refl)
stop_ends stack_closed l h stopping v =
    elim (loops_end l (ground (arith, v.stop)) (ground (arith, v.ctx))) [
      | inl moves ↦ inl moves
      | inr (quiet, silent) ↦ inl (
          can_stop stack_closed l (record l { stopper = finished }) h
            (rw (quiet, silent, stop_from) refl))
    ]
stop_ends finished l h stopping v = start_ends l.starter l refl h v

weight-bound : (l : Life) → IsOrderly l → is_idle l.stopper ≡ false → weight l ≤ l.stop_calls + 11
weight-bound l v stopping = ground arith

-- Once a call of `Stop` has won, and without new requests: the goroutines of the engine take at
-- most eleven steps and one for each call of `Stop` that is on its way, in any order; and at the
-- end of any such run one of them can go on, or everything is closed, both loops have ended, and
-- `Start` and `Stop` have returned.
pub engine_ends :
    {l m : Life} {n : ℕ}
    → Reach l
    → is_idle l.stopper ≡ false
    → Run l n m
    → (n ≤ l.stop_calls + 11) × (CanAct m ⊎ IsDown m)
engine_ends {l = l} {m = m} r stopping run =
    let (steps, still, reached) = Run-weight run r stopping in
    let bound = weight-bound l (Reach-IsOrderly r) stopping in
    (omega arith, stop_ends m.stopper m refl still (Reach-IsOrderly reached))
