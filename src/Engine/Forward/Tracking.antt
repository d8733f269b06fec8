-- ===== src/Engine/Forward/Tracking.antt =====
-- go/engine.go: the numbers in a table of flows, and the two counters of the flows.
use teapod_tun2socks.Prelude.{
  ℕ, suc, ◌+◌, ◌<◌, ◌≡◌, refl, ◌==◌, List, [], ◌∷◌, ◌⊎◌, inl, inr, Bool-cases, arith, pos, ◌+ℤ◌,
  ◌-ℤ◌, wrap_i64, wrap_i64_small,
}
use teapod_tun2socks.Engine.Forward.{Server, release_slot}
use teapod_tun2socks.Engine.Forward.Table.{untrack}

-- `conns` or `udpConns` has an entry under the number `id`.
abbrev pub Has : ℕ → List (ℕ × ℕ) → Type 0
Has id [] = ⊥
Has id ((k, c) ∷ rest) = (k ≡ id) ⊎ Has id rest

pub untrack_other : (id : ℕ) (l : List (ℕ × ℕ)) → ¬ Has id l → untrack id l ≡ l
unfolding untrack
untrack_other id [] h = refl
untrack_other id ((k, c) ∷ rest) h =
    let rest_same = untrack_other id rest (λ m. h (inr m)) in
    elim (Bool-cases (k == id)) [
      | inl same ↦ absurd (h (inl (ground arith)))
      | inr differ ↦ rw (differ, rest_same, untrack) refl
    ]

pub wrap-add : (k : ℕ) → k < 9223372036854775807 → wrap_i64 (pos k +ℤ pos 1) ≡ pos (k + 1)
unfolding ◌+ℤ◌
wrap-add k h =
    let sum : pos k +ℤ pos 1 ≡ pos (k + 1) = ground arith in
    rw sum (wrap_i64_small (pos (k + 1)) (omega arith) (omega arith))

pub wrap-sub : (k : ℕ) → k < 9223372036854775807 → wrap_i64 (pos (suc k) -ℤ pos 1) ≡ pos k
unfolding ◌-ℤ◌
wrap-sub k h =
    let difference : pos (suc k) -ℤ pos 1 ≡ pos k = ground arith in
    rw difference (wrap_i64_small (pos k) (omega arith) (omega arith))

-- A slot is given back.
pub release_slot-wrap :
    {V : Type 0} (k : ℕ) (e : Server V)
    → k < 9223372036854775807
    → e.active_udp_conns ≡ pos (suc k)
    → release_slot e ≡ record e { active_udp_conns = pos k }
unfolding release_slot
release_slot-wrap k e small h = rw (h, wrap-sub k small) refl
