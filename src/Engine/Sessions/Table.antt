-- ===== src/Engine/Sessions/Table.antt =====
-- The table `conns` as the sessions have it.
use teapod_tun2socks.Engine.Forward.Tracking.{Has, untrack_other}
use teapod_tun2socks.Prelude.{
  ℕ, suc, ◌+◌, ◌≤◌, ◌<◌, ◌≡◌, refl, sym, ap, ◌∙◌, ◌==◌, List, [], ◌∷◌, length, Bool, true, false,
  ◌⊎◌, inl, inr, Bool-cases, arith, if◌then◌else◌,
}
use teapod_tun2socks.Engine.Forward.Table.{untrack}
use teapod_tun2socks.Engine.Sessions.{Phase, registered, piping, untracked, gone, Session}

abbrev pub is_tracked : Phase → Bool
is_tracked registered = true
is_tracked piping = true
is_tracked untracked = false
is_tracked gone = false

abbrev pub is_counted : Phase → Bool
is_counted registered = false
is_counted piping = true
is_counted untracked = true
is_counted gone = false

abbrev pub one_if : Bool → ℕ
one_if true = 1
one_if false = 0

module _ {F : Type 0} where
  -- The entries of the sessions that are tracked.
  abbrev pub entries : List (Session F) → List (ℕ × ℕ)
  entries [] = []
  entries (x ∷ l) =
      let rest = entries l in if is_tracked x.phase then ((x.id, x.app) ∷ rest) else rest

  -- The number of the sessions that are counted.
  abbrev pub count_sessions : List (Session F) → ℕ
  count_sessions [] = 0
  count_sessions (x ∷ l) = one_if (is_counted x.phase) + count_sessions l

  -- A session with that number.
  abbrev pub HasId : ℕ → List (Session F) → Type 0
  HasId id [] = ⊥
  HasId id (x ∷ l) = (x.id ≡ id) ⊎ HasId id l

  -- No number is used twice, and all are at most `n`.
  abbrev pub IsDistinct : ℕ → List (Session F) → Type 0
  IsDistinct n [] = Unit
  IsDistinct n (x ∷ l) = (¬ HasId x.id l) × (x.id ≤ n) × IsDistinct n l

  -- One session changes.
  pub data Changed (x y : Session F) : List (Session F) → List (Session F) → Type 0 where
    here : {l : List (Session F)} → Changed x y (x ∷ l) (y ∷ l)
    there : {z : Session F} {l m : List (Session F)} → Changed x y l m → Changed x y (z ∷ l) (z ∷ m)

  pub Has-entries : (id : ℕ) (l : List (Session F)) → Has id (entries l) → HasId id l
  Has-entries id [] h = h
  Has-entries id (x ∷ l) h = elim (Bool-cases (is_tracked x.phase)) [
    | inl on ↦ elim (rw (on) at h) as (λ (_ : (x.id ≡ id) ⊎ Has id (entries l)). HasId id (x ∷ l)) [
      | inl same ↦ inl same
      | inr later ↦ inr (Has-entries id l later)
    ]
    | inr off ↦ inr (Has-entries id l (rw (off) at h))
  ]

  pub not_HasId : (n id : ℕ) (l : List (Session F)) → IsDistinct n l → n < id → ¬ HasId id l
  not_HasId n id [] h lt m = m
  not_HasId n id (x ∷ l) h lt (inl same) = omega (arith, h.1)
  not_HasId n id (x ∷ l) h lt (inr m) = not_HasId n id l h.2 lt m

  pub IsDistinct-more : (n m : ℕ) (l : List (Session F)) → n ≤ m → IsDistinct n l → IsDistinct m l
  IsDistinct-more n m [] le h = tt
  IsDistinct-more n m (x ∷ l) le h =
      let low = h.1 in (h.0, omega arith, IsDistinct-more n m l le h.2)

  Changed-HasId :
      (x y : Session F) (id : ℕ) (l m : List (Session F))
      → Changed x y l m
      → x.id ≡ y.id
      → HasId id m
      → HasId id l
  Changed-HasId x y id _ _ here same (inl found) = inl (same ∙ found)
  Changed-HasId x y id _ _ here same (inr later) = inr later
  Changed-HasId x y id _ _ (there c) same (inl found) = inl found
  Changed-HasId x y id _ _ (there {z} {l} {m} c) same (inr later) =
      inr (Changed-HasId x y id l m c same later)

  pub Changed-IsDistinct :
      (n : ℕ) (x y : Session F) (l m : List (Session F))
      → Changed x y l m
      → x.id ≡ y.id
      → IsDistinct n l
      → IsDistinct n m
  Changed-IsDistinct n x y _ _ (here {l}) same h = rw (same) at h
  Changed-IsDistinct n x y _ _ (there {z} {l} {m} c) same h = (
    λ found. h.0 (Changed-HasId x y z.id l m c same found),
    h.1,
    Changed-IsDistinct n x y l m c same h.2,
  )

  -- A session that stays tracked keeps its entry.
  pub Changed-entries :
      (x y : Session F) (l m : List (Session F))
      → Changed x y l m
      → x.id ≡ y.id
      → x.app ≡ y.app
      → is_tracked x.phase ≡ is_tracked y.phase
      → entries m ≡ entries l
  Changed-entries x y _ _ (here {l}) same_id same_app same = rw (same_id, same_app, same) refl
  Changed-entries x y _ _ (there {z} {l} {m} c) same_id same_app same =
      ap (λ rest. if is_tracked z.phase then ((z.id, z.app) ∷ rest) else rest)
        (Changed-entries x y l m c same_id same_app same)

  Changed-HasId_old : (x y : Session F) (l m : List (Session F)) → Changed x y l m → HasId x.id l
  Changed-HasId_old x y _ _ here = inl refl
  Changed-HasId_old x y _ _ (there {z} {l} {m} c) = inr (Changed-HasId_old x y l m c)

  -- A session that is no longer tracked loses its entry, and no other does.
  pub untrack-entries :
      (n : ℕ) (x y : Session F) (l m : List (Session F))
      → Changed x y l m
      → is_tracked x.phase ≡ true
      → is_tracked y.phase ≡ false
      → IsDistinct n l
      → entries m ≡ untrack x.id (entries l)
  unfolding untrack
  untrack-entries n x y _ _ (here {l}) on off h =
      let kept = untrack_other x.id (entries l) (λ m. h.0 (Has-entries x.id l m)) in
      let same : (x.id == x.id) ≡ true = ground arith in
      rw (on, off) (rw (same, untrack) (sym kept))
  untrack-entries n x y _ _ (there {z} {l} {m} c) on off h =
      let later = untrack-entries n x y l m c on off h.2 in
      let differ : (z.id == x.id) ≡ false = elim (Bool-cases (z.id == x.id)) [
        | inl same ↦
            let equal : x.id ≡ z.id = ground arith in
            absurd (h.0 (rw (← equal) (Changed-HasId_old x y l m c)))
        | inr other ↦ other
      ] in
      elim (Bool-cases (is_tracked z.phase)) [
        | inl kept ↦ rw (kept) (rw (differ, untrack) (ap (◌∷◌ (z.id, z.app)) later))
        | inr dropped ↦ rw (dropped) later
      ]

  pub Changed-count :
      (x y : Session F) (l m : List (Session F))
      → Changed x y l m
      → count_sessions m + one_if (is_counted x.phase)
        ≡ count_sessions l + one_if (is_counted y.phase)
  Changed-count x y _ _ (here {l}) = omega arith
  Changed-count x y _ _ (there {z} {l} {m} c) = omega (arith, Changed-count x y l m c)

  pub Changed-length :
      (x y : Session F) (l m : List (Session F)) → Changed x y l m → length m ≡ length l
  Changed-length x y _ _ here = refl
  Changed-length x y _ _ (there {z} {l} {m} c) = ap suc (Changed-length x y l m c)

  pub count-length : (l : List (Session F)) → count_sessions l ≤ length l
  count-length [] = omega arith
  count-length (x ∷ l) =
      let rest = count-length l in
      let one : one_if (is_counted x.phase) ≤ 1 = ground arith in omega arith
