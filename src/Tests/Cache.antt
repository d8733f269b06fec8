-- ===== src/Tests/Cache.antt =====
-- A cache of two decisions for go/connection.go, its keys natural numbers.
use teapod_tun2socks.Prelude.{
  ℕ, ℤ, pos, List, ◌+ℤ◌, true, false, [], ◌∷◌, ◌≡◌, refl, ret, some, none,
}
use teapod_tun2socks.Cache.Elements.{
  ValidationResult, element, remove, move_to_front, push_front, back, store_result,
}
use teapod_tun2socks.Cache.Lru.{LruCache, new, get, add, evict, map_set, len, before}
use teapod_tun2socks.Cache.Spec.{find, forget, read, write}
use teapod_tun2socks.Cache.Refinement.{After}
use teapod_tun2socks.Cache.History.{
  Call, get_call, add_call, step, run, latest, spec_step, spec_run, run_refines, get-latest,
}
use native.Mathlib.Decide.{ℕ_discrete}

abbrev allow : ℤ → ValidationResult
allow t = record { allowed = true; uid = pos 0; expired = t }

abbrev deny : ℤ → ValidationResult
deny t = record { allowed = false; uid = pos 0; expired = t }

abbrev three_calls : List (Call ℕ)
three_calls =
    get_call 5 (pos 14)
    ∷ add_call 7 (allow (pos 0)) (pos 9)
    ∷ add_call 5 (deny (pos 0)) (pos 5)
    ∷ []

run_refines_example :
    (c : LruCache ℕ) × (run ℕ_discrete three_calls (new (pos 2) (pos 10)) ≡ ret c)
    × After ℕ_discrete (new (pos 2) (pos 10)) c ((5, deny (pos 15)) ∷ (7, allow (pos 19)) ∷ [])
unfolding spec_run spec_step read write find forget ℕ_discrete ◌+ℤ◌
run_refines_example = run_refines ℕ_discrete (pos 2) (pos 10) three_calls

-- The cache after the three calls.
abbrev after_calls : LruCache ℕ
after_calls = record {
  capacity = pos 2;
  ttl = pos 10;
  cache = map_set ℕ_discrete 7 1 (map_set ℕ_discrete 5 0 (λ _. none));
  list =
      record { id = 0; value = record { key = 5; result = deny (pos 15) } }
      ∷ record { id = 1; value = record { key = 7; result = allow (pos 19) } }
      ∷ [];
  fresh = 2;
}

ran_calls : run ℕ_discrete three_calls (new (pos 2) (pos 10)) ≡ ret after_calls
unfolding run step get add new evict len back element move_to_front remove store_result push_front
    map_set ℕ_discrete ◌+ℤ◌
ran_calls = refl

hit_7 :
    get ℕ_discrete after_calls 7 (pos 16)
    ≡ ret (
      record after_calls {
        list =
            record { id = 1; value = record { key = 7; result = allow (pos 19) } }
            ∷ record { id = 0; value = record { key = 5; result = deny (pos 15) } }
            ∷ [];
      },
      some (allow (pos 19)),
    )
unfolding get element move_to_front remove map_set ℕ_discrete
hit_7 = refl

get-latest_example :
    (latest ℕ_discrete (pos 10) 7 three_calls ≡ some (allow (pos 19)))
    × (before (pos 16) (pos 19) ≡ true)
get-latest_example =
    get-latest ℕ_discrete (pos 2) (pos 10) (pos 16) three_calls 7 after_calls
      (record after_calls {
        list =
            record { id = 1; value = record { key = 7; result = allow (pos 19) } }
            ∷ record { id = 0; value = record { key = 5; result = deny (pos 15) } }
            ∷ [];
      })
      (allow (pos 19)) ran_calls hit_7
