-- ===== src/Tests/Api.antt =====
-- The API of go/teapod_tun2socks.go, started and stopped at once.
use teapod_tun2socks.Prelude.{
  zero, suc, negsuc, ◌++◌, inr, ◌≡◌, refl, pos, [], ◌∷◌, true, some, ℤ, ℕ, List, ◌⊎◌, Option,
}
use teapod_tun2socks.Hook.{EngineHook, new_hook, set_validator}
use teapod_tun2socks.Engine.Lifecycle.{Resources, created}
use teapod_tun2socks.Engine.Instance.{Instance, new_instance}
use teapod_tun2socks.Api.{
  Api, bits64, to_int, make_engine, start, start_unless, get_stats_line, get_diagnostics,
}
use teapod_tun2socks.Api.Engines.{Reach, unused, starts}
use teapod_tun2socks.Engine.Diagnostics.{StackStats, Snapshot, Activity}
use teapod_tun2socks.Api.Reports.{Holds, Reports, Reach-Reports}
use teapod_tun2socks.Engine.Diagnostics.Line.{no_blank}

abbrev opened : Resources
opened = record { stack_open = true; ctx_live = true; fd_open = true }

abbrev hook : EngineHook Unit
hook = set_validator (new_hook (pos 2) (pos 60)) (some tt)

abbrev started : Api Unit
started = record { engines = new_instance hook ∷ []; engine = some 0; hook = some 0 }

started-Reach : Reach started
unfolding start start_unless make_engine to_int
started-Reach = starts bits64 (created opened) (pos 2) (pos 60) (some tt) unused

-- Texts of numbers: a stroke for each unit.
abbrev strokes : ℕ → List ℕ
strokes zero = []
strokes (suc n) = 49 ∷ strokes n

abbrev signed : ℤ → List ℕ
signed (pos n) = strokes n
signed (negsuc n) = 45 ∷ strokes (suc n)

strokes-no_blank : (n : ℕ) → no_blank (strokes n) ≡ true
strokes-no_blank zero = refl
strokes-no_blank (suc n) = strokes-no_blank n

signed-no_blank : (z : ℤ) → no_blank (signed z) ≡ true
signed-no_blank (pos n) = strokes-no_blank n
signed-no_blank (negsuc n) = strokes-no_blank n

abbrev marshal : Snapshot → List ℕ ⊎ List ℕ
marshal s = inr (strokes s.cache_len)

abbrev quoted : List ℕ → List ℕ
quoted err = 34 ∷ (err ++ (34 ∷ []))

abbrev range : List (ℕ × ℕ) → List (ℕ × ℕ)
range m = m

abbrev tracked : ℕ → Activity
tracked app = record { dst = app ∷ []; created_ms = pos 0; last_tx_ms = pos 0; last_rx_ms = pos 0 }

abbrev stats : StackStats
stats = record { current_established = 2; current_connected = 3; num_queued = 5 }

Reach-Reports_example :
    (held : Option (Instance Unit)) × Holds started held
    × Reports signed strokes marshal quoted range tracked
        (pos 1000)
        stats
        held
        (get_stats_line signed strokes stats started)
        (get_diagnostics marshal quoted range tracked (pos 1000) stats started)
Reach-Reports_example =
    Reach-Reports signed strokes marshal quoted range tracked (pos 1000) stats started-Reach
      signed-no_blank strokes-no_blank
