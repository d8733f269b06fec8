-- ===== src/Cache/Writes.antt =====
-- `Add` against its specification: an update in place, or a new element and an eviction.
use mathlib.Core.Path.{subst}
use teapod_tun2socks.Prelude.{sym, ret-injective}
use teapod_tun2socks.Prelude.{
  ℕ, List, ℤ, ◌≡◌, some, ret, Option-cases, arith, inl, inr, ◌∷◌, Bool-cases, ap, refl, none, ◌+ℤ◌,
  suc, length, ◌≤◌, pos_part, take, ltb_ℤ, pos, ◌∙◌, take_of_length-le,
}
use teapod_tun2socks.Cache.Elements.{
  ValidationResult, Element, remove, move_to_front, element, push_front,
}
use teapod_tun2socks.Cache.Lru.{LruCache, add, map_set, evict, len}
use teapod_tun2socks.Cache.Spec.{view, write, length-view}
use teapod_tun2socks.Cache.Index.{
  id_of, element-id_of, element-store_result, remove-store_result, forget-eq_of_none,
}
use teapod_tun2socks.Cache.Linked.{IsValid, remove_element-Linked, Linked, back-id_of, push-Linked}
use teapod_tun2socks.Cache.Refinement.{After, promote_refines}

module _ {K : Type 0} (dec : Discrete K) where
  add_update :
      (c : LruCache K) (k : K) (r : ValidationResult) (now : ℤ) (e : ℕ) (x : Element K)
      → c.cache k ≡ some e
      → element e c.list ≡ some x
      → add dec c k r now
        ≡ ret (record c {
          list =
              record x {
                value = record { key = x.value.key; result = record r { expired = now +ℤ c.ttl } };
              }
              ∷ remove e c.list;
        })
  unfolding add move_to_front
  add_update c k r now e x h f =
      let stamped : ValidationResult = record r { expired = now +ℤ c.ttl } in
      rw (
        h,
        add,
        f,
        move_to_front,
        element-store_result dec c.list e stamped x f,
        remove-store_result dec c.list e stamped,
      )

  -- The cache that `Add` hands to `evict` after a miss.
  abbrev pushed : LruCache K → K → ValidationResult → LruCache K
  pushed c k r = record c {
    list = record { id = c.fresh; value = record { key = k; result = r } } ∷ c.list;
    cache = map_set dec k c.fresh c.cache;
    fresh = suc c.fresh;
  }

  add_insert :
      (c : LruCache K) (k : K) (r : ValidationResult) (now : ℤ)
      → c.cache k ≡ none
      → add dec c k r now ≡ evict dec (pushed c k (record r { expired = now +ℤ c.ttl }))
  unfolding add push_front
  add_insert c k r now h = rw (h, add)

  -- `evict` keeps the most recent decisions, as many as the capacity says.
  evict_refines :
      (c : LruCache K) (x : Element K) (l : List (Element K))
      → Linked dec (record c { list = x ∷ l })
      → length l ≤ pos_part c.capacity
      → (c' : LruCache K) × (evict dec (record c { list = x ∷ l }) ≡ ret c')
        × After dec c c' (take (pos_part c.capacity) (view (x ∷ l)))
  unfolding evict len
  evict_refines c x l v h = elim (Bool-cases (ltb_ℤ c.capacity (pos (length (x ∷ l))))) [
    | inl over ↦
        let (k, e, last, id, seen) = back-id_of dec x l v.distinct in
        let (c', ran, linked, _, shorter, capacity, ttl, left) =
          remove_element-Linked dec (record c { list = x ∷ l }) k e v id in
        let full : length l ≡ pos_part c.capacity = ground arith in
        rw (over, last, ran)
          (
            c',
            refl,
            record {
              valid = record { linked = linked; bounded = rw capacity (omega (arith, shorter)) };
              shows = left ∙ seen ∙ ap (λ n. take n (view (x ∷ l))) full;
              same_capacity = capacity;
              same_ttl = ttl;
            },
          )
    | inr fits ↦
        let short : length (x ∷ l) ≤ pos_part c.capacity = ground arith in
        rw
          (
            fits,
            take_of_length-le (pos_part c.capacity) (view (x ∷ l))
                (omega (arith, length-view (x ∷ l))),
          )
          (
            record c { list = x ∷ l },
            refl,
            record {
              valid = record { linked = v; bounded = short };
              shows = refl;
              same_capacity = refl;
              same_ttl = refl;
            },
          )
  ]

  -- A list that a valid cache shows is not cut.
  kept :
      (c c' : LruCache K) (l : List (K × ValidationResult))
      → After dec c c' l
      → take (pos_part c.capacity) l ≡ l
  kept c c' l a = take_of_length-le _ l (
      omega (
        arith,
        ap length a.shows,
        ap pos_part a.same_capacity,
        a.valid.bounded,
        length-view c'.list,
      ))

  -- `Add` never panics; it stamps the decision, makes it the most recent one, and of all decisions
  -- keeps the most recent ones, as many as the capacity says.
  pub add_refines :
      (c : LruCache K) (k : K) (r : ValidationResult) (now : ℤ)
      → IsValid dec c
      → (c' : LruCache K) × (add dec c k r now ≡ ret c')
        × After dec c c' (write dec c.capacity c.ttl (view c.list) k r now)
  unfolding write view
  add_refines c k r now v = elim (Option-cases (c.cache k)) [
    | inl miss ↦
        let stamped : ValidationResult = record r { expired = now +ℤ c.ttl } in
        let free : id_of dec k c.list ≡ none = rw (v.linked.indexed k) at miss in
        let (c', ran, a) =
          evict_refines (pushed c k stamped)
            (record { id = c.fresh; value = record { key = k; result = stamped } }) c.list
            (push-Linked dec c k stamped v.linked free) v.bounded in
        rw (add_insert c k r now miss, ran, forget-eq_of_none dec k c.list free)
          (
            c',
            refl,
            record {
              valid = a.valid;
              shows = a.shows;
              same_capacity = a.same_capacity;
              same_ttl = a.same_ttl;
            },
          )
    | inr (e, hit) ↦
        let stamped : ValidationResult = record r { expired = now +ℤ c.ttl } in
        let (x, found, key, id, _) =
          element-id_of dec k c.list e (rw (v.linked.indexed k) at hit) v.linked.distinct in
        let y : Element K = record x { value = record { key = x.value.key; result = stamped } } in
        let a = promote_refines dec c k e y v hit key id in
        rw
          (add_update c k r now e x hit found, kept c (record c { list = y ∷ remove e c.list }) _ a)
          (record c { list = y ∷ remove e c.list }, refl, a)
  ]

  -- The same for the cache that `Add` returned.
  pub add-After :
      (c c' : LruCache K) (k : K) (r : ValidationResult) (now : ℤ)
      → IsValid dec c
      → add dec c k r now ≡ ret c'
      → After dec c c' (write dec c.capacity c.ttl (view c.list) k r now)
  add-After c c' k r now v ran =
      let (d, ran', a) = add_refines c k r now v in
      subst (λ z. After dec c z (write dec c.capacity c.ttl (view c.list) k r now))
        (ret-injective d c' (sym ran' ∙ ran)) a
