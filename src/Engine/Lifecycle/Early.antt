-- ===== src/Engine/Lifecycle/Early.antt =====
-- A `Stop` before `Start`, and the error paths of `NewEngine`.
use teapod_tun2socks.Prelude.{ℕ, suc, ◌≡◌, refl, Bool, true, false, some, arith, ap, ◌∙◌}
use teapod_tun2socks.Engine.Lifecycle.{
  Created, created, create_nic_failed, dup_failed, set_nonblock_failed, new_engine, not_run,
  entered, Stopper, idle, Life, start_from, call_stop, run_stop, stop_runs, start_runs, act, Reach,
}
use teapod_tun2socks.Engine.Lifecycle.Invariant.{
  has_started, Reach-IsOrderly, is_idle, ctx_at, stop_at, tun_at, stack_at,
}

run_stop_down :
    (k : ℕ) (l : Life) → l.running ≡ false → run_stop (suc k) l ≡ some (record l { stop_calls = k })
unfolding run_stop call_stop
run_stop_down k l down = rw (down, run_stop, call_stop) refl

start_from_down :
    (l : Life)
    → l.running ≡ false
    → start_from not_run l ≡ some (record l { running = true; starter = entered })
unfolding start_from
start_from_down l down = rw (down, start_from) refl

is_idle-idle : (s : Stopper) → is_idle s ≡ true → s ≡ idle
is_idle-idle s h = ground arith

-- In every state that the goroutines can reach: a call of `Stop` that runs before `Start` does
-- nothing but return, and `Start` then runs the engine, with everything open and no call of `Stop`
-- in progress.
pub stop_before_start :
    {l : Life} (k : ℕ)
    → Reach l
    → l.starter ≡ not_run
    → l.stop_calls ≡ suc k
    → (act stop_runs l ≡ some (record l { stop_calls = k }))
      × (act start_runs (record l { stop_calls = k })
          ≡ some (record l { stop_calls = k; running = true; starter = entered }))
      × (l.stopper ≡ idle)
      × (l.ctx_live ≡ true)
      × (l.stop_open ≡ true)
      × (l.tun_open ≡ true)
      × (l.stack_open ≡ true)
unfolding act
stop_before_start {l = l} k r early calls =
    let v = Reach-IsOrderly r in
    let down : l.running ≡ false = ground (arith, v.runs) in
    let quiet = is_idle-idle l.stopper (v.none_before (ap has_started early)) in
    (
      ap (λ x. run_stop x l) calls ∙ run_stop_down k l down,
      ap (λ x. start_from x (record l { stop_calls = k })) early
          ∙ start_from_down (record l { stop_calls = k }) down,
      quiet,
      v.ctx ∙ ap ctx_at quiet,
      v.stop ∙ ap stop_at quiet,
      v.tun ∙ ap tun_at quiet,
      v.stack ∙ ap stack_at quiet,
    )

-- An engine with everything open, or an error with nothing left open.
abbrev pub IsReleased : Created → Type 0
IsReleased (created r) = (r.stack_open ≡ true) × (r.ctx_live ≡ true) × (r.fd_open ≡ true)
IsReleased (create_nic_failed r) =
    (r.stack_open ≡ false) × (r.ctx_live ≡ false) × (r.fd_open ≡ false)
IsReleased (dup_failed r) = (r.stack_open ≡ false) × (r.ctx_live ≡ false) × (r.fd_open ≡ false)
IsReleased (set_nonblock_failed r) =
    (r.stack_open ≡ false) × (r.ctx_live ≡ false) × (r.fd_open ≡ false)

pub new_engine-IsReleased :
    (nic_ok dup_ok nonblock_ok : Bool) → IsReleased (new_engine nic_ok dup_ok nonblock_ok)
unfolding new_engine
new_engine-IsReleased false dup_ok nonblock_ok = (refl, refl, refl)
new_engine-IsReleased true false nonblock_ok = (refl, refl, refl)
new_engine-IsReleased true true false = (refl, refl, refl)
new_engine-IsReleased true true true = (refl, refl, refl)
