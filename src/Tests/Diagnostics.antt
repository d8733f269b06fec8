-- ===== src/Tests/Diagnostics.antt =====
-- The report of go/engine.go on an engine with two connections, one of them silent for long.
use mathlib.Core.List.{Perm, reverse, reverse_perm}
use Prim.Native.Nat.{min}
use teapod_tun2socks.Tests.Fixtures.{hook}
use teapod_tun2socks.Prelude.{
  ℕ, ◌≡◌, ◌↔◌, ◌≤◌, ◌≤ℤ◌, refl, pos, [], ◌∷◌, map, take, length, true, false, arith, ◌==◌,
  if◌then◌else◌,
}
use teapod_tun2socks.Engine.Idle.{idle_verdict}
use teapod_tun2socks.Engine.Instance.{Instance, new_instance}
use teapod_tun2socks.Engine.Diagnostics.{Activity, StackStats, conn_diag, take_snapshot}
use teapod_tun2socks.Engine.Diagnostics.Table.{row, take_snapshot-rows}
use teapod_tun2socks.Engine.Diagnostics.Verdict.{ShowsIdle, ShowsZombie, conn_diag-verdict}

abbrev engine : Instance Unit
engine = record (new_instance hook) {
  server = record (new_instance hook).server { conns = (4, 8) ∷ (2, 7) ∷ []; active_conns = pos 2 };
}

abbrev silent : Activity
silent = record { dst = 49 ∷ []; created_ms = pos 0; last_tx_ms = pos 2000; last_rx_ms = pos 1000 }

abbrev fresh : Activity
fresh = record {
  dst = 50 ∷ [];
  created_ms = pos 100000;
  last_tx_ms = pos 199000;
  last_rx_ms = pos 199500;
}

abbrev tracked : ℕ → Activity
tracked app = if app == 7 then silent else fresh

abbrev stats : StackStats
stats = record { current_established = 2; current_connected = 2; num_queued = 0 }

take_snapshot-rows_example :
    ((take_snapshot reverse tracked (pos 200000) stats 1 engine).conns
      ≡ take 200 (map (row tracked (pos 200000)) (reverse engine.server.conns)))
    × (length (take_snapshot reverse tracked (pos 200000) stats 1 engine).conns
        ≡ min 200 (length engine.server.conns))
    × (length engine.server.conns ≤ 200
        → Perm
            (take_snapshot reverse tracked (pos 200000) stats 1 engine).conns
            (map (row tracked (pos 200000)) engine.server.conns))
take_snapshot-rows_example =
    take_snapshot-rows reverse tracked (pos 200000) stats 1 engine (λ m. reverse_perm m)

conn_diag-verdict_example :
    (((idle_verdict (pos 2000) (pos 1000) (pos 200000)).0 ≡ true)
        × ((idle_verdict (pos 2000) (pos 1000) (pos 200000)).1 ≡ false)
      ↔ ShowsIdle (conn_diag (pos 200000) silent))
    × (ShowsZombie (conn_diag (pos 200000) silent)
        → (idle_verdict (pos 2000) (pos 1000) (pos 200000)).0 ≡ true)
    × ((idle_verdict (pos 2000) (pos 1000) (pos 200000)).0 ≡ true
        → (pos 120 ≤ℤ (conn_diag (pos 200000) silent).tx_idle_sec)
          × (pos 120 ≤ℤ (conn_diag (pos 200000) silent).rx_idle_sec))
conn_diag-verdict_example =
    conn_diag-verdict 200000 2000 1000 silent (omega arith) (omega arith) (omega arith) refl refl
