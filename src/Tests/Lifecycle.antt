-- ===== src/Tests/Lifecycle.antt =====
-- An engine of go/engine.go that is started, and stops when its device fails.
use teapod_tun2socks.Prelude.{◌+◌, ◌≤◌, refl, ◌⊎◌, false}
use teapod_tun2socks.Engine.Lifecycle.{
  Life, new_life, waiting, returned, won, finished, looping, ended, start_from, call_stop, run_stop,
  stop_from, reader_fails, writer_stops, start_runs, stop_runs, stop_goes_on, read_fails,
  write_stops, act, Reach, fresh, acts,
}
use teapod_tun2socks.Engine.Lifecycle.Invariant.{IsOrderly, Reach-IsOrderly}
use teapod_tun2socks.Engine.Lifecycle.Ending.{Run, stay, more, CanAct, IsDown, engine_ends}

-- The device has failed, and the read loop's `Stop` has won.
abbrev stopping : Life
stopping = record new_life { starter = waiting; stopper = won; reader = ended; writer = looping }

stopping-Reach : Reach stopping
unfolding act start_from reader_fails run_stop call_stop
stopping-Reach =
    acts stop_runs
      (acts read_fails (acts start_runs (acts start_runs (acts start_runs fresh refl) refl) refl)
        refl)
      refl

Reach-IsOrderly_example : IsOrderly stopping
Reach-IsOrderly_example = Reach-IsOrderly stopping-Reach

abbrev down : Life
down = record stopping {
  ctx_live = false;
  stop_open = false;
  tun_open = false;
  stack_open = false;
  starter = returned;
  stopper = finished;
  writer = ended;
}

stopping-Run : Run stopping 7 down
unfolding act start_from stop_from writer_stops
stopping-Run = more stop_goes_on refl refl (
    more stop_goes_on refl refl (
      more stop_goes_on refl refl (
        more stop_goes_on refl refl (
          more write_stops refl refl
            (more stop_goes_on refl refl (more start_runs refl refl stay))))))

engine_ends_example : (7 ≤ 0 + 11) × (CanAct down ⊎ IsDown down)
engine_ends_example = engine_ends stopping-Reach refl stopping-Run
