-- ===== src/Cache/Refinement.antt =====
-- The methods of the cache against their specification: the map and the list of the source
-- implement the plain list of decisions, and no method reads through a stale pointer.
use mathlib.Core.Path.{subst}
use teapod_tun2socks.Prelude.{sym, ret-injective, ◌∙◌, Option}
use teapod_tun2socks.Prelude.{
  ℕ, List, ℤ, ◌≡◌, some, [], ret, Option-cases, arith, inl, inr, ◌∷◌, Bool-cases, ap, refl, none,
  false, true,
}
use teapod_tun2socks.Cache.Elements.{ValidationResult, Element, remove, move_to_front, element}
use teapod_tun2socks.Cache.Lru.{LruCache, new, get, remove_element, before, delete}
use teapod_tun2socks.Cache.Spec.{view, read, forget, read_miss, read_fresh, read_stale}
use teapod_tun2socks.Cache.Index.{
  id_of, find-eq-none, element-id_of, length-remove, view-remove, forget-eq_of_none,
}
use teapod_tun2socks.Cache.Linked.{IsValid, remove_element-Linked, promote-Linked}

module _ {K : Type 0} (dec : Discrete K) where
  -- What a method leaves behind: a valid cache that shows `l`, with the same parameters.
  pub record After (c c' : LruCache K) (l : List (K × ValidationResult)) : Type 0 where
    pub valid : IsValid dec c'
    pub shows : view c'.list ≡ l
    pub same_capacity : c'.capacity ≡ c.capacity
    pub same_ttl : c'.ttl ≡ c.ttl

  -- A new cache is empty and valid.
  pub new-IsValid :
      (capacity ttl : ℤ)
      → IsValid dec (new capacity ttl) × (view (new {K = K} capacity ttl).list ≡ [])
  unfolding new view id_of
  new-IsValid capacity ttl = (
    record {
      linked = record { indexed = λ q. refl; distinct = tt; below = tt };
      bounded = omega arith;
    },
    refl,
  )

  remove-element_refines :
      (c : LruCache K) (k : K) (e : ℕ)
      → IsValid dec c
      → c.cache k ≡ some e
      → (c' : LruCache K) × (remove_element dec c e ≡ ret c')
        × After c c' (forget dec k (view c.list))
  remove-element_refines c k e v h =
      let (c', ran, linked, shows, shorter, capacity, ttl, _) =
        remove_element-Linked dec c k e v.linked (rw (v.linked.indexed k) at h) in
      (
        c',
        ran,
        record {
          valid = record { linked = linked; bounded = rw capacity (omega (arith, v.bounded)) };
          shows = shows;
          same_capacity = capacity;
          same_ttl = ttl;
        },
      )

  -- A hit: the element is there, and moves to the front with any decision.
  promote_self :
      (c : LruCache K) (x : Element K)
      → IsValid dec c
      → c.cache x.value.key ≡ some x.id
      → After c
          (record c { list = x ∷ remove x.id c.list })
          ((x.value.key, x.value.result) ∷ forget dec x.value.key (view c.list))
  unfolding view
  promote_self c x v h =
      let known : id_of dec x.value.key c.list ≡ some x.id =
        rw (v.linked.indexed x.value.key) at h in
      record {
        valid = record {
          linked = promote-Linked dec c x v.linked known;
          bounded =
              omega (
                arith,
                length-remove dec x.value.key c.list x.id known v.linked.distinct,
                v.bounded,
              );
        };
        shows =
            ap (◌∷◌ (x.value.key, x.value.result))
              (view-remove dec x.value.key c.list x.id known v.linked.distinct);
        same_capacity = refl;
        same_ttl = refl;
      }

  pub promote_refines :
      (c : LruCache K) (k : K) (e : ℕ) (x : Element K)
      → IsValid dec c
      → c.cache k ≡ some e
      → x.value.key ≡ k
      → x.id ≡ e
      → After c
          (record c { list = x ∷ remove e c.list })
          ((k, x.value.result) ∷ forget dec k (view c.list))
  promote_refines c k e x v h key id = rw (← key, ← id) (promote_self c x v (rw (key, id) h))

  get_miss : (c : LruCache K) (k : K) (now : ℤ) → c.cache k ≡ none → get dec c k now ≡ ret (c, none)
  unfolding get
  get_miss c k now h = rw (h, get)

  get_fresh :
      (c : LruCache K) (k : K) (now : ℤ) (e : ℕ) (x : Element K)
      → c.cache k ≡ some e
      → element e c.list ≡ some x
      → before now x.value.result.expired ≡ true
      → get dec c k now ≡ ret (record c { list = x ∷ remove e c.list }, some x.value.result)
  unfolding get move_to_front
  get_fresh c k now e x h f b = rw (h, get, f, b, move_to_front)

  get_stale :
      (c c' : LruCache K) (k : K) (now : ℤ) (e : ℕ) (x : Element K)
      → c.cache k ≡ some e
      → element e c.list ≡ some x
      → before now x.value.result.expired ≡ false
      → remove_element dec c e ≡ ret c'
      → get dec c k now ≡ ret (c', none)
  unfolding get
  get_stale c c' k now e x h f b r = ground arith

  -- `Get` returns what a read of the specification returns, and leaves what it leaves.
  pub get_refines :
      (c : LruCache K) (k : K) (now : ℤ)
      → IsValid dec c
      → (c' : LruCache K) × (get dec c k now ≡ ret (c', (read dec (view c.list) k now).1))
        × After c c' (read dec (view c.list) k now).0
  get_refines c k now v = elim (Option-cases (c.cache k)) [
    | inl miss ↦
        let none_seen = find-eq-none dec k c.list (rw (v.linked.indexed k) at miss) in
        rw (get_miss c k now miss, read_miss dec (view c.list) k now none_seen)
          (c, refl, record { valid = v; shows = refl; same_capacity = refl; same_ttl = refl })
    | inr (e, hit) ↦
        let (x, found, key, id, seen) =
          element-id_of dec k c.list e (rw (v.linked.indexed k) at hit) v.linked.distinct in
        elim (Bool-cases (before now x.value.result.expired)) [
          | inl fresh ↦
              rw
                (
                  get_fresh c k now e x hit found fresh,
                  read_fresh dec (view c.list) k now x.value.result seen fresh,
                )
                (
                  record c { list = x ∷ remove e c.list },
                  refl,
                  promote_refines c k e x v hit key id,
                )
          | inr stale ↦
              let (c', ran, after) = remove-element_refines c k e v hit in
              rw
                (
                  get_stale c c' k now e x hit found stale ran,
                  read_stale dec (view c.list) k now x.value.result seen stale,
                )
                (c', refl, after)
        ]
  ]

  -- `Remove` forgets the decision on the key, and nothing else.
  pub delete_refines :
      (c : LruCache K) (k : K)
      → IsValid dec c
      → (c' : LruCache K) × (delete dec c k ≡ ret c') × After c c' (forget dec k (view c.list))
  unfolding delete
  delete_refines c k v = elim (Option-cases (c.cache k)) [
    | inl miss ↦
        rw (miss, delete, forget-eq_of_none dec k c.list (rw (v.linked.indexed k) at miss))
          (c, refl, record { valid = v; shows = refl; same_capacity = refl; same_ttl = refl })
    | inr (e, hit) ↦ rw (hit, delete) (remove-element_refines c k e v hit)
  ]

  -- The same for the caches that `Get` and `Remove` returned.
  pub get-After :
      (c c' : LruCache K) (k : K) (now : ℤ) (found : Option ValidationResult)
      → IsValid dec c
      → get dec c k now ≡ ret (c', found)
      → After c c' (read dec (view c.list) k now).0
  get-After c c' k now found v ran =
      let (d, ran', a) = get_refines c k now v in
      subst (λ z. After c z (read dec (view c.list) k now).0)
        (ap (λ p. p.0)
          (ret-injective (d, (read dec (view c.list) k now).1) (c', found) (sym ran' ∙ ran)))
        a

  pub delete-After :
      (c c' : LruCache K) (k : K)
      → IsValid dec c
      → delete dec c k ≡ ret c'
      → After c c' (forget dec k (view c.list))
  delete-After c c' k v ran =
      let (d, ran', a) = delete_refines c k v in
      subst (λ z. After c z (forget dec k (view c.list))) (ret-injective d c' (sym ran' ∙ ran)) a
