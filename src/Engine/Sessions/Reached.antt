-- ===== src/Engine/Sessions/Reached.antt =====
-- Which flows a close of the tracked connections reaches.
use mathlib.Core.List.{Mem, mem-cons_self, mem-cons_of_mem}
use teapod_tun2socks.Prelude.{ℕ, ◌≡◌, List, [], ◌∷◌, map, false, ◌⊎◌, inl, inr, Bool-cases}
use teapod_tun2socks.Engine.Sessions.{Session}
use teapod_tun2socks.Engine.Sessions.Table.{is_tracked, entries}

module _ {F : Type 0} (IsOver : F → Type 0) where
  -- The app's end of each flow is among the closed connections, or the flow is over.
  abbrev pub AllReached : List ℕ → List (Session F) → Type 0
  AllReached closed [] = Unit
  AllReached closed (x ∷ l) = (Mem x.app closed ⊎ IsOver x.flow) × AllReached closed l

  -- Each flow that is not tracked is over.
  abbrev pub AllOver : List (Session F) → Type 0
  AllOver [] = Unit
  AllOver (x ∷ l) = (is_tracked x.phase ≡ false → IsOver x.flow) × AllOver l

  pub entries-AllReached :
      (closed : List ℕ) (l : List (Session F))
      → AllOver l
      → ((app : ℕ) → Mem app (map (λ e. e.1) (entries l)) → Mem app closed)
      → AllReached closed l
  entries-AllReached closed [] over sub = tt
  entries-AllReached closed (x ∷ l) over sub = elim (Bool-cases (is_tracked x.phase)) [
    | inl on ↦
        let sub' : (app : ℕ)
            → Mem app (map (λ e. e.1) ((x.id, x.app) ∷ entries l))
            → Mem app closed =
          rw (on) at sub in
        (
          inl (sub' x.app mem-cons_self),
          entries-AllReached closed l over.1 (λ app m. sub' app (mem-cons_of_mem x.app m)),
        )
    | inr off ↦
        let sub' : (app : ℕ) → Mem app (map (λ e. e.1) (entries l)) → Mem app closed =
          rw (off) at sub in
        (inr (over.0 off), entries-AllReached closed l over.1 sub')
  ]
