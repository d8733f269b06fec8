-- ===== src/Prelude/Panics.antt =====
-- Go code that can panic: an index or a slice out of range, a read through a missing pointer.
use Prim.Native.Nat.{ℕ, zero, suc, ◌-◌, ◌≤◌, ◌<◌}
use mathlib.Core.Path.{◌≡◌, refl}
use mathlib.Core.Option.{Option, none, some}
use mathlib.Core.List.{List, [], ◌∷◌}
use native.Mathlib.Omega.{arith}
use teapod_tun2socks.Prelude.Tests.{leb, if◌then◌else◌}
use teapod_tun2socks.Prelude.Lists.{length, get_elem?, get_or, take, drop}

-- `ret a` is a normal return, `panic` a runtime panic.
pub data Go {ℓ} (A : Type ℓ) : Type ℓ where
  ret : A → Go A
  panic : Go A

infixl 5 ◌>>=◌
abbrev pub ◌>>=◌ {ℓ κ} : {A : Type ℓ} {B : Type κ} → Go A → (A → Go B) → Go B
ret a >>= f = f a
panic >>= f = panic

abbrev pub or_panic {ℓ} : {A : Type ℓ} → Option A → Go A
or_panic none = panic
or_panic (some a) = ret a

module _ {ℓ} {A : Type ℓ} where
  -- `b[i]`
  unfoldable pub index : List A → ℕ → Go A
  index b i = or_panic (get_elem? b i)

  -- `b[lo:hi]`, for `hi` up to the length. (Go allows `hi` up to the capacity.)
  unfoldable pub slice : List A → ℕ → ℕ → Go (List A)
  slice b lo hi =
      if leb lo hi
      then (if leb hi (length b) then ret (take (hi - lo) (drop lo b)) else panic)
      else panic

  -- `b[lo:]`
  unfoldable pub slice_from : List A → ℕ → Go (List A)
  slice_from b lo = if leb lo (length b) then ret (drop lo b) else panic

  get_elem?-eq-get_or :
      (b : List A) (i : ℕ) (d : A) → i < length b → get_elem? b i ≡ some (get_or b i d)
  get_elem?-eq-get_or [] i d h = elim h [ ]
  get_elem?-eq-get_or (x ∷ xs) zero d h = refl
  get_elem?-eq-get_or (x ∷ xs) (suc i) d h = get_elem?-eq-get_or xs i d (omega arith)

  pub index_lem : (b : List A) (i : ℕ) (d : A) → i < length b → index b i ≡ ret (get_or b i d)
  unfolding index
  index_lem b i d h = rw (get_elem?-eq-get_or b i d h)

  get_elem?-eq-none : (b : List A) (i : ℕ) → length b ≤ i → get_elem? b i ≡ none
  get_elem?-eq-none [] i h = refl
  get_elem?-eq-none (x ∷ xs) zero h = absurd (omega arith)
  get_elem?-eq-none (x ∷ xs) (suc i) h = get_elem?-eq-none xs i (omega arith)

  pub index_out : (b : List A) (i : ℕ) → length b ≤ i → index b i ≡ panic
  unfolding index
  index_out b i h = rw (get_elem?-eq-none b i h)

pub ret-injective {ℓ} : {A : Type ℓ} (a b : A) → ret a ≡ ret b → a ≡ b
ret-injective a b h = cc
