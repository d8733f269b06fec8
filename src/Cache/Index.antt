-- ===== src/Cache/Index.antt =====
-- The map of the cache against its list: keys, identities and what a client sees agree.
use mathlib.Core.Logic.{ite}
use teapod_tun2socks.Prelude.{
  ℕ, ◌+◌, ◌<◌, ◌≤◌, ◌≡◌, refl, Option, none, some, List, [], ◌∷◌, length, arith, inl, inr, ◌==◌,
  Bool-cases,
}
use teapod_tun2socks.Cache.Elements.{Element, element, remove, store_result, ValidationResult}
use teapod_tun2socks.Cache.Spec.{view, find, forget}

-- Every identity lies below `fresh`.
abbrev pub Below : {K : Type 0} → ℕ → List (Element K) → Type 0
Below n [] = Unit
Below n (x ∷ l) = (x.id < n) × Below n l

module _ {K : Type 0} (dec : Discrete K) where
  -- The identity of the element that holds a key.
  unfoldable pub id_of : K → List (Element K) → Option ℕ
  id_of k [] = none
  id_of k (x ∷ l) = ite (dec x.value.key k) (some x.id) (id_of k l)

  -- No key twice, no identity twice.
  abbrev pub Distinct : List (Element K) → Type 0
  Distinct [] = Unit
  Distinct (x ∷ l) = (id_of x.value.key l ≡ none) × (element x.id l ≡ none) × Distinct l

  pub find-eq-none : (k : K) (l : List (Element K)) → id_of k l ≡ none → find dec k (view l) ≡ none
  unfolding id_of find view
  find-eq-none k [] h = refl
  find-eq-none k (x ∷ l) h = ground (arith, find-eq-none k l)

  pub forget-eq_of_none :
      (k : K) (l : List (Element K)) → id_of k l ≡ none → forget dec k (view l) ≡ view l
  unfolding id_of forget view
  forget-eq_of_none k [] h = refl
  forget-eq_of_none k (x ∷ l) h = ground (arith, forget-eq_of_none k l)

  -- The map leads from a key to the element that holds it.
  pub element-id_of :
      (k : K) (l : List (Element K)) (e : ℕ)
      → id_of k l ≡ some e
      → Distinct l
      → (x : Element K) × (element e l ≡ some x)
        × (x.value.key ≡ k)
        × (x.id ≡ e)
        × (find dec k (view l) ≡ some x.value.result)
  unfolding id_of find view element
  element-id_of k [] e h d = absurd (ground arith)
  element-id_of k (x ∷ l) e h d = elim (dec x.value.key k) [
    | yes p ↦ (x, ground arith, p, ground arith, ground arith)
    | no p ↦
        let (y, found, key, id, seen) = element-id_of k l e (ground arith) d.2 in
        (y, ground arith, key, id, ground arith)
  ]

  pub id_of-remove :
      (k q : K) (l : List (Element K)) (e : ℕ)
      → id_of k l ≡ some e
      → Distinct l
      → id_of q (remove e l) ≡ ite (dec k q) none (id_of q l)
  unfolding id_of remove element
  id_of-remove k q [] e h d = absurd (ground arith)
  id_of-remove k q (x ∷ l) e h d = elim (dec x.value.key k) [
    | yes p ↦ ground arith
    | no p ↦ ground (arith, id_of-remove k q l e, element-id_of k l e)
  ]

  pub view-remove :
      (k : K) (l : List (Element K)) (e : ℕ)
      → id_of k l ≡ some e
      → Distinct l
      → view (remove e l) ≡ forget dec k (view l)
  unfolding id_of remove element view forget
  view-remove k [] e h d = absurd (ground arith)
  view-remove k (x ∷ l) e h d = elim (dec x.value.key k) [
    | yes p ↦ ground (arith, forget-eq_of_none k l)
    | no p ↦ ground (arith, view-remove k l e, element-id_of k l e)
  ]

  pub length-remove :
      (k : K) (l : List (Element K)) (e : ℕ)
      → id_of k l ≡ some e
      → Distinct l
      → length (remove e l) + 1 ≡ length l
  unfolding id_of remove element
  length-remove k [] e h d = absurd (ground arith)
  length-remove k (x ∷ l) e h d = elim (dec x.value.key k) [
    | yes p ↦ ground arith
    | no p ↦ ground (arith, length-remove k l e, element-id_of k l e)
  ]

  pub id_of-remove-none :
      (q : K) (l : List (Element K)) (e : ℕ) → id_of q l ≡ none → id_of q (remove e l) ≡ none
  unfolding id_of remove
  id_of-remove-none q [] e h = refl
  id_of-remove-none q (x ∷ l) e h = ground (arith, id_of-remove-none q l e)

  pub element-remove-none :
      (l : List (Element K)) (d e : ℕ) → element d l ≡ none → element d (remove e l) ≡ none
  unfolding element remove
  element-remove-none [] d e h = refl
  element-remove-none (x ∷ l) d e h = ground (arith, element-remove-none l d e)

  pub element-remove_self :
      (l : List (Element K)) (e : ℕ) → Distinct l → element e (remove e l) ≡ none
  unfolding element remove
  element-remove_self [] e d = refl
  element-remove_self (x ∷ l) e d = ground (arith, element-remove_self l e)

  pub remove-Distinct : (l : List (Element K)) (e : ℕ) → Distinct l → Distinct (remove e l)
  unfolding remove
  remove-Distinct [] e d = tt
  remove-Distinct (x ∷ l) e d = elim (Bool-cases (x.id == e)) [
    | inl p ↦ rw p d.2
    | inr p ↦ rw p (
      id_of-remove-none x.value.key l e d.0,
      element-remove-none l x.id e d.1,
      remove-Distinct l e d.2,
    )
  ]

  pub remove-Below : (n : ℕ) (l : List (Element K)) (e : ℕ) → Below n l → Below n (remove e l)
  unfolding remove
  remove-Below n [] e b = tt
  remove-Below n (x ∷ l) e b = elim (Bool-cases (x.id == e)) [
    | inl p ↦ rw p b.1
    | inr p ↦ rw p (b.0, remove-Below n l e b.1)
  ]

  pub Below-mono : (n m : ℕ) (l : List (Element K)) → n ≤ m → Below n l → Below m l
  Below-mono n m [] h b = tt
  Below-mono n m (x ∷ l) h b = (omega arith, Below-mono n m l h b.1)

  pub element-eq-none_of_Below : (n : ℕ) (l : List (Element K)) → Below n l → element n l ≡ none
  unfolding element
  element-eq-none_of_Below n [] b = refl
  element-eq-none_of_Below n (x ∷ l) b = ground (arith, element-eq-none_of_Below n l)

  pub Below-id_of :
      (n : ℕ) (k : K) (l : List (Element K)) (e : ℕ) → id_of k l ≡ some e → Below n l → e < n
  unfolding id_of
  Below-id_of n k [] e h b = absurd (ground arith)
  Below-id_of n k (x ∷ l) e h b = ground (arith, Below-id_of n k l e)

  pub id_of-promote :
      (x : Element K) (l : List (Element K)) (q : K)
      → id_of x.value.key l ≡ some x.id
      → Distinct l
      → id_of q l ≡ id_of q (x ∷ remove x.id l)
  unfolding id_of
  id_of-promote x l q h d = ground (arith, id_of-remove x.value.key q l x.id h d)

  pub id_of-remove_self :
      (k : K) (l : List (Element K)) (e : ℕ)
      → id_of k l ≡ some e
      → Distinct l
      → id_of k (remove e l) ≡ none
  id_of-remove_self k l e h d = ground (arith, id_of-remove k k l e h d)

  pub element-store_result :
      (l : List (Element K)) (e : ℕ) (r : ValidationResult) (x : Element K)
      → element e l ≡ some x
      → element e (store_result e r l)
        ≡ some (record x { value = record { key = x.value.key; result = r } })
  unfolding element store_result
  element-store_result [] e r x h = absurd (ground arith)
  element-store_result (y ∷ l) e r x h = ground (arith, element-store_result l e r x)

  pub remove-store_result :
      (l : List (Element K)) (e : ℕ) (r : ValidationResult)
      → remove e (store_result e r l) ≡ remove e l
  unfolding remove store_result
  remove-store_result [] e r = refl
  remove-store_result (y ∷ l) e r = ground (arith, remove-store_result l e r)
