-- ===== src/Engine/Lifecycle/Invariant.antt =====
-- In which order `Stop` shuts the engine down.
use teapod_tun2socks.Prelude.{
  ℕ, zero, suc, ◌≡◌, Bool, true, false, not, ◌&&◌, Bool-cases, inl, inr, arith, refl,
}
use teapod_tun2socks.Engine.Pipe.Runs.{Ensures, Ensures-some}
use teapod_tun2socks.Engine.Lifecycle.{
  Starter, not_run, entered, reading, waiting, returned, Stopper, idle, won, cancelled, signalled,
  tun_closed, stack_closed, finished, LoopState, absent, Life, start_from, call_stop, is_looping,
  stop_from, reader_stops, run_stop, reader_fails, writer_stops, Reach, act, Action, acts,
  start_runs, stop_runs, stop_goes_on, read_stops, read_fails, write_stops, request, fresh,
}

abbrev pub has_started : Starter → Bool
has_started not_run = false
has_started _ = true

abbrev pub is_idle : Stopper → Bool
is_idle idle = true
is_idle _ = false

-- What `Stop` has not closed yet.
abbrev pub ctx_at : Stopper → Bool
ctx_at idle = true
ctx_at won = true
ctx_at _ = false

abbrev pub stop_at : Stopper → Bool
stop_at idle = true
stop_at won = true
stop_at cancelled = true
stop_at _ = false

abbrev pub tun_at : Stopper → Bool
tun_at idle = true
tun_at won = true
tun_at cancelled = true
tun_at signalled = true
tun_at _ = false

abbrev pub stack_at : Stopper → Bool
stack_at stack_closed = false
stack_at finished = false
stack_at _ = true

abbrev pub is_absent : LoopState → Bool
is_absent absent = true
is_absent _ = false

abbrev pub reader_at : Starter → Bool
reader_at not_run = true
reader_at entered = true
reader_at _ = false

abbrev pub writer_at : Starter → Bool
writer_at waiting = false
writer_at returned = false
writer_at _ = true

-- The engine runs from the CompareAndSwap of `Start` to that of `Stop`, and one call of `Stop`
-- shuts everything down, in its order and once; each loop is there from its start on; `Start`
-- returns only after `stopCh` has been closed, which happens once.
pub record IsOrderly (l : Life) : Type 0 where
  pub runs : l.running ≡ (has_started l.starter && is_idle l.stopper)
  pub none_before : has_started l.starter ≡ false → is_idle l.stopper ≡ true
  pub ctx : l.ctx_live ≡ ctx_at l.stopper
  pub stop : l.stop_open ≡ stop_at l.stopper
  pub tun : l.tun_open ≡ tun_at l.stopper
  pub stack : l.stack_open ≡ stack_at l.stopper
  pub reader_there : is_absent l.reader ≡ reader_at l.starter
  pub writer_there : is_absent l.writer ≡ writer_at l.starter
  pub back : l.starter ≡ returned → l.stop_open ≡ false
  pub closed_once : l.panicked ≡ false

start_from-IsOrderly :
    (s : Starter) (l : Life) → l.starter ≡ s → IsOrderly l → Ensures (start_from s l) IsOrderly
unfolding start_from
start_from-IsOrderly not_run l h v = ground arith
start_from-IsOrderly entered l h v = ground arith
start_from-IsOrderly reading l h v = ground arith
start_from-IsOrderly waiting l h v = elim (Bool-cases l.stop_open) [
  | inl still_open ↦ rw (still_open, start_from) tt
  | inr closed ↦ rw (closed, start_from) (ground arith)
]
start_from-IsOrderly returned l h v = tt

run_stop-IsOrderly : (k : ℕ) (l : Life) → IsOrderly l → Ensures (run_stop k l) IsOrderly
unfolding run_stop call_stop
run_stop-IsOrderly zero l v = tt
run_stop-IsOrderly (suc k) l v = ground arith

stop_from-IsOrderly :
    (s : Stopper) (l : Life) → l.stopper ≡ s → IsOrderly l → Ensures (stop_from s l) IsOrderly
unfolding stop_from
stop_from-IsOrderly idle l h v = tt
stop_from-IsOrderly won l h v = ground arith
stop_from-IsOrderly cancelled l h v = ground arith
stop_from-IsOrderly signalled l h v = ground arith
stop_from-IsOrderly tun_closed l h v = ground arith
stop_from-IsOrderly stack_closed l h v = elim (Bool-cases (is_looping l.reader)) [
  | inl reads ↦ rw (reads, stop_from) tt
  | inr quiet ↦ elim (Bool-cases (is_looping l.writer)) [
    | inl writes ↦ rw (quiet, writes, stop_from) tt
    | inr silent ↦ rw (quiet, silent, stop_from) (ground arith)
  ]
]
stop_from-IsOrderly finished l h v = tt

reader_stops-IsOrderly : (l : Life) → IsOrderly l → Ensures (reader_stops l) IsOrderly
unfolding reader_stops
reader_stops-IsOrderly l v = elim (Bool-cases (is_looping l.reader && not l.stop_open)) [
  | inl stops ↦ rw (stops, reader_stops) (ground arith)
  | inr goes_on ↦ rw (goes_on, reader_stops) tt
]

reader_fails-IsOrderly : (l : Life) → IsOrderly l → Ensures (reader_fails l) IsOrderly
unfolding reader_fails
reader_fails-IsOrderly l v = elim (Bool-cases (is_looping l.reader)) [
  | inl fails ↦ elim (Bool-cases l.running) [
    | inl runs ↦ rw (fails, runs, reader_fails) (ground arith)
    | inr down ↦ rw (fails, down, reader_fails) (ground arith)
  ]
  | inr gone ↦ rw (gone, reader_fails) tt
]

writer_stops-IsOrderly : (l : Life) → IsOrderly l → Ensures (writer_stops l) IsOrderly
unfolding writer_stops
writer_stops-IsOrderly l v = elim (Bool-cases (is_looping l.writer && not l.ctx_live)) [
  | inl stops ↦ rw (stops, writer_stops) (ground arith)
  | inr goes_on ↦ rw (goes_on, writer_stops) tt
]

act-IsOrderly : (a : Action) (l : Life) → IsOrderly l → Ensures (act a l) IsOrderly
unfolding act
act-IsOrderly start_runs l v = start_from-IsOrderly l.starter l refl v
act-IsOrderly stop_runs l v = run_stop-IsOrderly l.stop_calls l v
act-IsOrderly stop_goes_on l v = stop_from-IsOrderly l.stopper l refl v
act-IsOrderly read_stops l v = reader_stops-IsOrderly l v
act-IsOrderly read_fails l v = reader_fails-IsOrderly l v
act-IsOrderly write_stops l v = writer_stops-IsOrderly l v
act-IsOrderly request l v = ground arith

-- In every interleaving of `Start`, any number of calls of `Stop` and the two loops: the engine
-- runs exactly from the CompareAndSwap of `Start` to that of the first later `Stop`; that call
-- cancels the context and closes `stopCh`, the device and the stack in this order; `stopCh` is not
-- closed twice; and `Start` returns only after it has been closed.
pub Reach-IsOrderly : {l : Life} → Reach l → IsOrderly l
Reach-IsOrderly fresh = ground arith
Reach-IsOrderly (acts {l} {m} a r h) =
    Ensures-some IsOrderly (act a l) m (act-IsOrderly a l (Reach-IsOrderly r)) h
