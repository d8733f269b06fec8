-- ===== src/Engine/Lifecycle.antt =====
-- go/engine.go, `NewEngine`, `Start`, `Stop` and `IsRunning`: the goroutine that runs `Start`, the
-- calls of `Stop`, and the two loops. Each access that another goroutine can see is a step of its
-- own.
pub mod Invariant
pub mod Ending
pub mod Early
use teapod_tun2socks.Prelude.{
  ℕ, zero, suc, ◌+◌, Bool, true, false, not, ◌&&◌, Option, none, some, if◌then◌else◌, ◌≡◌,
}

-- What `NewEngine` has opened when it returns. gVisor and the kernel decide which calls fail.
pub record Resources : Type 0 where
  pub stack_open : Bool
  pub ctx_live : Bool
  pub fd_open : Bool

pub data Created : Type 0 where
  created : Resources → Created
  create_nic_failed dup_failed set_nonblock_failed : Resources → Created

-- `NewEngine`: whether `CreateNIC`, `unix.Dup` and `unix.SetNonblock` succeed
unfoldable pub new_engine : Bool → Bool → Bool → Created
new_engine nic_ok dup_ok nonblock_ok =
    let r : Resources = record { stack_open = true; ctx_live = false; fd_open = false } in
    if not nic_ok
    then create_nic_failed (record r { stack_open = false })
    else (let r = record r { ctx_live = true } in
        if not dup_ok
        then dup_failed (record r { stack_open = false; ctx_live = false })
        else (let r = record r { fd_open = true } in
            if not nonblock_ok
            then set_nonblock_failed
                (record r { fd_open = false; stack_open = false; ctx_live = false })
            else created r))

-- Where `Start` stands: not run yet; after its CompareAndSwap; with the read loop started; at
-- `<-e.stopCh`; returned.
pub data Starter : Type 0 where
  not_run entered reading waiting returned : Starter

-- Where the call of `Stop` stands that has won the CompareAndSwap.
pub data Stopper : Type 0 where
  idle won cancelled signalled tun_closed stack_closed finished : Stopper

-- `tunReadLoop` or `tunWriteLoop`
pub data LoopState : Type 0 where
  absent looping ended : LoopState

-- `stop_calls` are the calls of `Stop` that have not run yet. `panicked` is a close of a closed
-- channel.
pub record Life : Type 0 where
  pub running : Bool
  pub ctx_live : Bool
  pub stop_open : Bool
  pub tun_open : Bool
  pub stack_open : Bool
  pub starter : Starter
  pub stopper : Stopper
  pub reader : LoopState
  pub writer : LoopState
  pub stop_calls : ℕ
  pub panicked : Bool

-- The engine that `NewEngine` returns, whose `Start` is still to run.
abbrev pub new_life : Life
new_life = record {
  running = false;
  ctx_live = true;
  stop_open = true;
  tun_open = true;
  stack_open = true;
  starter = not_run;
  stopper = idle;
  reader = absent;
  writer = absent;
  stop_calls = 0;
  panicked = false;
}

-- `Start`
unfoldable pub start_from : Starter → Life → Option Life
start_from not_run l = some (
    if l.running
    then record l { starter = returned }
    else record l { running = true; starter = entered })
start_from entered l = some (record l { reader = looping; starter = reading })
start_from reading l = some (record l { writer = looping; starter = waiting })
start_from waiting l = if l.stop_open then none else some (record l { starter = returned })
start_from returned l = none

-- The CompareAndSwap of a call of `Stop`
unfoldable pub call_stop : Life → Life
call_stop l = if l.running then record l { running = false; stopper = won } else l

-- `wg.Wait()` gets through once no loop that has been added runs.
abbrev pub is_looping : LoopState → Bool
is_looping looping = true
is_looping _ = false

-- `Stop` behind its CompareAndSwap
unfoldable pub stop_from : Stopper → Life → Option Life
stop_from idle l = none
stop_from won l = some (record l { ctx_live = false; stopper = cancelled })
stop_from cancelled l = some (
    if l.stop_open
    then record l { stop_open = false; stopper = signalled }
    else record l { panicked = true })
stop_from signalled l = some (record l { tun_open = false; stopper = tun_closed })
stop_from tun_closed l = some (record l { stack_open = false; stopper = stack_closed })
stop_from stack_closed l =
    if is_looping l.reader
    then none
    else if is_looping l.writer
    then none
    else some (record l { stopper = finished })
stop_from finished l = none

-- The read loop finds `stopCh` closed; or its read fails, and it calls `Stop` if the engine runs.
unfoldable pub reader_stops : Life → Option Life
reader_stops l =
    if is_looping l.reader && not l.stop_open then some (record l { reader = ended }) else none

unfoldable pub reader_fails : Life → Option Life
reader_fails l =
    if is_looping l.reader
    then some (
        if l.running
        then record l { reader = ended; stop_calls = l.stop_calls + 1 }
        else record l { reader = ended })
    else none

-- `ReadContext` returns nil once the context is cancelled.
unfoldable pub writer_stops : Life → Option Life
writer_stops l =
    if is_looping l.writer && not l.ctx_live then some (record l { writer = ended }) else none

-- What the goroutines do. `request` is a call of `Stop` by the API.
pub data Action : Type 0 where
  start_runs stop_runs stop_goes_on read_stops read_fails write_stops request : Action

unfoldable pub run_stop : ℕ → Life → Option Life
unfolding call_stop
run_stop zero l = none
run_stop (suc k) l = some (call_stop (record l { stop_calls = k }))

unfoldable pub act : Action → Life → Option Life
unfolding start_from run_stop stop_from reader_stops reader_fails writer_stops
act start_runs l = start_from l.starter l
act stop_runs l = run_stop l.stop_calls l
act stop_goes_on l = stop_from l.stopper l
act read_stops l = reader_stops l
act read_fails l = reader_fails l
act write_stops l = writer_stops l
act request l = some (record l { stop_calls = l.stop_calls + 1 })

pub data Reach : Life → Type 0 where
  fresh : Reach new_life
  acts : {l m : Life} (a : Action) → Reach l → act a l ≡ some m → Reach m
