-- ===== src/Tests/Pipe.antt =====
-- A TCP flow of go/engine.go in which the app sends two bytes and closes its side.
use teapod_tun2socks.Prelude.{◌≡◌, refl, ◌↔◌, ◌⊎◌, [], ◌∷◌, true, none, some, pos, arith, ◌<◌, ◌+◌}
use teapod_tun2socks.Engine.Idle.{idle_verdict, IsIdle, IsZombie, idle_verdict_lem}
use teapod_tun2socks.Engine.Pipe.{
  Flow, upward, read_returns, clock, write_returns, close_write_returns, eof, step, lane, start,
  ended,
}
use teapod_tun2socks.Engine.Pipe.Runs.{Reach, started, stepped}
use teapod_tun2socks.Engine.Pipe.Delivery.{IsPrefix, pipe_delivers}
use teapod_tun2socks.Engine.Pipe.Closing.{IsSettled, pipe_settles}

idle_verdict_lem_example :
    (((idle_verdict (pos 1000) (pos 500) (pos 200000)).0 ≡ true)
      ↔ (IsIdle 1000 500 200000 ⊎ IsZombie 1000 500 200000))
    × (((idle_verdict (pos 1000) (pos 500) (pos 200000)).1 ≡ true)
        ↔ (IsZombie 1000 500 200000 × (200000 < 1000 + 300000)))
idle_verdict_lem_example =
    idle_verdict_lem 1000 500 200000 (omega arith) (omega arith) (omega arith)

-- The app's side is half-closed, and the proxy's side still reads.
abbrev half_closed : Flow
half_closed = record (start (pos 0) 0) {
  up = record { pc = ended; received = 71 ∷ 69 ∷ []; sent = 71 ∷ 69 ∷ []; fin = true };
  last_tx = pos 5;
}

half_closed-Reach : Reach (pos 0) 0 half_closed
unfolding step
half_closed-Reach =
    stepped upward (close_write_returns true)
      (stepped upward (read_returns [] (some eof))
        (stepped upward (write_returns none)
          (stepped upward (clock (pos 5))
            (stepped upward (read_returns (71 ∷ 69 ∷ []) none) started refl) refl)
          refl)
        refl)
      refl

pipe_delivers_example :
    IsPrefix (lane upward half_closed).sent (lane upward half_closed).received
    × ((lane upward half_closed).fin ≡ true
        → (lane upward half_closed).sent ≡ (lane upward half_closed).received)
pipe_delivers_example = pipe_delivers upward half_closed-Reach

pipe_settles_example : IsSettled half_closed
pipe_settles_example = pipe_settles half_closed-Reach
