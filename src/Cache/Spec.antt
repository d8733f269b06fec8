-- ===== src/Cache/Spec.antt =====
-- What the cache promises, over a plain list of decisions, most recently used first.
use mathlib.Core.Logic.{ite, inl, inr}
use teapod_tun2socks.Prelude.{
  ℤ, pos_part, ◌+ℤ◌, Option, none, some, List, [], ◌∷◌, take, if◌then◌else◌, ◌≡◌, false, true,
  length, ap, suc, refl, arith, ℕ, Option-cases, zero, Bool-cases, ◌<◌, ◌-◌,
}
use teapod_tun2socks.Cache.Elements.{ValidationResult, Element}
use teapod_tun2socks.Cache.Lru.{before}

-- What a client can see of the list: each key with its decision.
unfoldable pub view : {K : Type 0} → List (Element K) → List (K × ValidationResult)
view [] = []
view (x ∷ l) = (x.value.key, x.value.result) ∷ view l

module _ {K : Type 0} (dec : Discrete K) where
  unfoldable pub find : K → List (K × ValidationResult) → Option ValidationResult
  find k [] = none
  find k ((q, r) ∷ l) = ite (dec q k) (some r) (find k l)

  unfoldable pub forget : K → List (K × ValidationResult) → List (K × ValidationResult)
  forget k [] = []
  forget k ((q, r) ∷ l) = let rest = forget k l in ite (dec q k) rest ((q, r) ∷ rest)

  -- A read answers with a decision that has not expired, and makes it the most recent one.
  unfoldable pub read :
      List (K × ValidationResult) → K → ℤ → List (K × ValidationResult) × Option ValidationResult
  unfolding find forget
  read l k now = elim (find k l) [
    | none ↦ (l, none)
    | some r ↦ if before now r.expired then ((k, r) ∷ forget k l, some r) else (forget k l, none)
  ]

  -- A write stamps the decision, puts it in front, and keeps the `capacity` most recent ones.
  unfoldable pub write :
      ℤ → ℤ → List (K × ValidationResult) → K → ValidationResult → ℤ → List (K × ValidationResult)
  unfolding forget
  write capacity ttl l k r now =
      take (pos_part capacity) ((k, record r { expired = now +ℤ ttl }) ∷ forget k l)

  pub find-forget :
      (k q : K) (l : List (K × ValidationResult))
      → find q (forget k l) ≡ ite (dec k q) none (find q l)
  unfolding find forget
  find-forget k q [] = ground arith
  find-forget k q ((j, r) ∷ l) = ground (arith, find-forget k q l)

  -- Keeping the first entries hides some keys, and changes no decision.
  pub find-take :
      (n : ℕ) (k : K) (l : List (K × ValidationResult)) (r : ValidationResult)
      → find k (take n l) ≡ some r
      → find k l ≡ some r
  unfolding find
  find-take zero k l r h = cc
  find-take (suc n) k [] r h = cc
  find-take (suc n) k ((j, s) ∷ l) r h = ground (arith, find-take n k l r)

  pub read_miss :
      (l : List (K × ValidationResult)) (k : K) (now : ℤ)
      → find k l ≡ none
      → read l k now ≡ (l, none)
  unfolding read
  read_miss l k now h = rw (h, read)

  pub read_fresh :
      (l : List (K × ValidationResult)) (k : K) (now : ℤ) (r : ValidationResult)
      → find k l ≡ some r
      → before now r.expired ≡ true
      → read l k now ≡ ((k, r) ∷ forget k l, some r)
  unfolding read
  read_fresh l k now r h b = rw (h, read, b)

  pub read_stale :
      (l : List (K × ValidationResult)) (k : K) (now : ℤ) (r : ValidationResult)
      → find k l ≡ some r
      → before now r.expired ≡ false
      → read l k now ≡ (forget k l, none)
  unfolding read
  read_stale l k now r h b = rw (h, read, b)

  -- A read adds no decision.
  pub find-read :
      (k q : K) (now : ℤ) (l : List (K × ValidationResult)) (r : ValidationResult)
      → find q (read l k now).0 ≡ some r
      → find q l ≡ some r
  unfolding find
  find-read k q now l r h = elim (Option-cases (find k l)) [
    | inl miss ↦ rw (read_miss l k now miss) at h
    | inr (s, hit) ↦ elim (Bool-cases (before now s.expired)) [
      | inl fresh ↦ ground (arith, read_fresh l k now s hit fresh, find-forget k q l)
      | inr stale ↦ ground (arith, read_stale l k now s hit stale, find-forget k q l)
    ]
  ]

  -- A write adds the stamped decision, and no other.
  pub find-write :
      (capacity ttl now : ℤ) (k q : K) (r s : ValidationResult) (l : List (K × ValidationResult))
      → find q (write capacity ttl l k r now) ≡ some s
      → ite (dec k q) (some (record r { expired = now +ℤ ttl })) (find q l) ≡ some s
  unfolding write find
  find-write capacity ttl now k q r s l h =
      let stamped : ValidationResult = record r { expired = now +ℤ ttl } in
      ground
        (arith, find-take (pos_part capacity) q ((k, stamped) ∷ forget k l) s h, find-forget k q l)

  pub find-write_self :
      (capacity ttl now : ℤ) (k : K) (r : ValidationResult) (l : List (K × ValidationResult))
      → 0 < pos_part capacity
      → find k (write capacity ttl l k r now) ≡ some (record r { expired = now +ℤ ttl })
  unfolding write find
  find-write_self capacity ttl now k r l h =
      let e : pos_part capacity ≡ suc (pos_part capacity - 1) = omega arith in rw e (ground arith)

  -- A read that hits.
  pub read_hit :
      (l : List (K × ValidationResult)) (k : K) (now : ℤ) (r : ValidationResult)
      → (read l k now).1 ≡ some r
      → (find k l ≡ some r) × (before now r.expired ≡ true)
  unfolding read
  read_hit l k now r h = ground arith

pub length-view : {K : Type 0} (l : List (Element K)) → length (view l) ≡ length l
unfolding view
length-view [] = refl
length-view (x ∷ l) = ap suc (length-view l)
