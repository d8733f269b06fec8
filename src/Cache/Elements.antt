-- ===== src/Cache/Elements.antt =====
-- container/list as the cache uses it: elements with an identity, and a lookup by identity or key.
use teapod_tun2socks.Prelude.{ℕ, Bool, ℤ, Option, none, some, List, [], ◌∷◌, ◌==◌, if◌then◌else◌}

-- `ValidationResult`; `expired` in nanoseconds.
pub record ValidationResult : Type 0 where
  pub allowed : Bool
  pub uid : ℤ
  pub expired : ℤ

-- `cacheEntry`
pub record CacheEntry (K : Type 0) : Type 0 where
  pub key : K
  pub result : ValidationResult

-- `list.Element`, with its identity.
pub record Element (K : Type 0) : Type 0 where
  pub id : ℕ
  pub value : CacheEntry K

module _ {K : Type 0} where
  -- The element that a pointer leads to.
  unfoldable pub element : ℕ → List (Element K) → Option (Element K)
  element e [] = none
  element e (x ∷ l) = if x.id == e then some x else element e l

  -- `l.Remove(e)`
  unfoldable pub remove : ℕ → List (Element K) → List (Element K)
  remove e [] = []
  remove e (x ∷ l) = if x.id == e then l else x ∷ remove e l

  -- `l.MoveToFront(e)`; nothing happens if the list does not hold `e`.
  unfoldable pub move_to_front : ℕ → List (Element K) → List (Element K)
  unfolding element remove
  move_to_front e l = elim (element e l) [ none ↦ l | some x ↦ x ∷ remove e l ]

  -- `l.PushFront(v)`, for a fresh identity
  unfoldable pub push_front : ℕ → CacheEntry K → List (Element K) → List (Element K)
  push_front e v l = record { id = e; value = v } ∷ l

  -- `l.Back()`
  unfoldable pub back : List (Element K) → Option ℕ
  back [] = none
  back (x ∷ []) = some x.id
  back (x ∷ y ∷ l) = back (y ∷ l)

  -- `entry.result = r`, through the pointer to the element
  unfoldable pub store_result : ℕ → ValidationResult → List (Element K) → List (Element K)
  store_result e r [] = []
  store_result e r (x ∷ l) =
      if x.id == e
      then record x { value = record { key = x.value.key; result = r } } ∷ l
      else x ∷ store_result e r l
