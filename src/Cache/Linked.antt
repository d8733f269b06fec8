-- ===== src/Cache/Linked.antt =====
-- The steps that the methods are made of: an element moves to the front, is dropped, is added.
use teapod_tun2socks.Prelude.{
  ℕ, suc, ◌+◌, ◌≤◌, ◌≡◌, refl, ◌∙◌, none, some, List, [], ◌∷◌, length, arith, take, ret, pos_part,
}
use teapod_tun2socks.Cache.Elements.{ValidationResult, Element, element, remove, back}
use teapod_tun2socks.Cache.Lru.{LruCache, map_delete, map_set, remove_element}
use teapod_tun2socks.Cache.Spec.{view, forget}
use teapod_tun2socks.Cache.Index.{
  Below, id_of, Distinct, element-id_of, id_of-remove, view-remove, length-remove, remove-Distinct,
  remove-Below, Below-mono, element-eq-none_of_Below, element-remove_self, id_of-promote,
  id_of-remove_self, Below-id_of,
}

module _ {K : Type 0} (dec : Discrete K) where
  -- The map leads from each key to the element of the list that holds it.
  pub record Linked (c : LruCache K) : Type 0 where
    pub indexed : (q : K) → c.cache q ≡ id_of dec q c.list
    pub distinct : Distinct dec c.list
    pub below : Below c.fresh c.list

  -- With the bound on the length: what every method keeps.
  pub record IsValid (c : LruCache K) : Type 0 where
    pub linked : Linked c
    pub bounded : length c.list ≤ pos_part c.capacity

  -- An element that the map knows is moved to the front, with any decision.
  pub promote-Linked :
      (c : LruCache K) (x : Element K)
      → Linked c
      → id_of dec x.value.key c.list ≡ some x.id
      → Linked (record c { list = x ∷ remove x.id c.list })
  promote-Linked c x v h = record {
    indexed = λ q. v.indexed q ∙ id_of-promote dec x c.list q h v.distinct;
    distinct = (
      id_of-remove_self dec x.value.key c.list x.id h v.distinct,
      element-remove_self dec c.list x.id v.distinct,
      remove-Distinct dec c.list x.id v.distinct,
    );
    below = (
      Below-id_of dec c.fresh x.value.key c.list x.id h v.below,
      remove-Below dec c.fresh c.list x.id v.below,
    );
  }

  -- `removeElement` of an element that the map knows.
  pub remove_element-Linked :
      (c : LruCache K) (k : K) (e : ℕ)
      → Linked c
      → id_of dec k c.list ≡ some e
      → (c' : LruCache K) × (remove_element dec c e ≡ ret c')
        × Linked c'
        × (view c'.list ≡ forget dec k (view c.list))
        × (length c'.list + 1 ≡ length c.list)
        × (c'.capacity ≡ c.capacity)
        × (c'.ttl ≡ c.ttl)
        × (view c'.list ≡ view (remove e c.list))
  unfolding remove_element map_delete
  remove_element-Linked c k e v h =
      let (x, found, key, id, seen) = element-id_of dec k c.list e h v.distinct in
      (
        record c { cache = map_delete dec k c.cache; list = remove e c.list },
        rw (found, key) refl,
        record {
          indexed = λ q. rw (id_of-remove dec k q c.list e h v.distinct) (rw (v.indexed q) refl);
          distinct = remove-Distinct dec c.list e v.distinct;
          below = remove-Below dec c.fresh c.list e v.below;
        },
        view-remove dec k c.list e h v.distinct,
        length-remove dec k c.list e h v.distinct,
        refl,
        refl,
        refl,
      )

  -- A new element goes to the front under a fresh identity.
  pub push-Linked :
      (c : LruCache K) (k : K) (r : ValidationResult)
      → Linked c
      → id_of dec k c.list ≡ none
      → Linked (record c {
        list = record { id = c.fresh; value = record { key = k; result = r } } ∷ c.list;
        cache = map_set dec k c.fresh c.cache;
        fresh = suc c.fresh;
      })
  unfolding map_set id_of
  push-Linked c k r v h = record {
    indexed = λ q. rw (v.indexed q) refl;
    distinct = (h, element-eq-none_of_Below dec c.fresh c.list v.below, v.distinct);
    below = (omega arith, Below-mono dec c.fresh (suc c.fresh) c.list (omega arith) v.below);
  }

  -- The back of a list that is not empty.
  pub back-id_of :
      (x : Element K) (l : List (Element K))
      → Distinct dec (x ∷ l)
      → (k : K) × (e : ℕ) × (back (x ∷ l) ≡ some e)
        × (id_of dec k (x ∷ l) ≡ some e)
        × (view (remove e (x ∷ l)) ≡ take (length l) (view (x ∷ l)))
  unfolding back id_of view remove element
  back-id_of x [] d = (x.value.key, x.id, refl, ground arith, ground arith)
  back-id_of x (y ∷ l) d =
      let (k, e, last, id, seen) = back-id_of y l d.2 in
      (k, e, last, ground (arith), ground (arith, element-id_of dec k (y ∷ l) e id d.2))
