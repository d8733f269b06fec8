-- ===== src/Cache/Lru.antt =====
-- `LRUCache` and its methods.
use mathlib.Core.Logic.{ite}
use teapod_tun2socks.Prelude.{
  ℕ, suc, Bool, ℤ, pos, ◌+ℤ◌, ltb_ℤ, Option, none, some, List, [], length, Go, ret, or_panic, ◌>>=◌,
  if◌then◌else◌,
}
use teapod_tun2socks.Cache.Elements.{
  ValidationResult, Element, element, remove, move_to_front, push_front, back, store_result,
}

-- `fresh` is the next identity that the allocator hands out.
pub record LruCache (K : Type 0) : Type 0 where
  pub capacity : ℤ
  pub ttl : ℤ
  pub cache : K → Option ℕ
  pub list : List (Element K)
  pub fresh : ℕ

-- `NewLRUCache`
unfoldable pub new : {K : Type 0} → ℤ → ℤ → LruCache K
new capacity ttl = record {
  capacity = capacity;
  ttl = ttl;
  cache = λ _. none;
  list = [];
  fresh = 0;
}

-- `Len`
unfoldable pub len : {K : Type 0} → LruCache K → ℕ
len c = length c.list

-- `now.Before(expired)`
abbrev pub before : ℤ → ℤ → Bool
before now expired = ltb_ℤ now expired

module _ {K : Type 0} (dec : Discrete K) where
  -- `delete(m, k)` and `m[k] = e`
  unfoldable pub map_delete : K → (K → Option ℕ) → K → Option ℕ
  map_delete k m q = ite (dec k q) none (m q)

  unfoldable pub map_set : K → ℕ → (K → Option ℕ) → K → Option ℕ
  map_set k e m q = ite (dec k q) (some e) (m q)

  -- `removeElement`
  unfoldable pub remove_element : LruCache K → ℕ → Go (LruCache K)
  unfolding map_delete remove element
  remove_element c e = do
    x ← or_panic (element e c.list)
    ret (record c { cache = map_delete x.value.key c.cache; list = remove e c.list })

  -- `Get`: `some r` for (r, true), `none` for (ValidationResult{}, false)
  unfoldable pub get : LruCache K → K → ℤ → Go (LruCache K × Option ValidationResult)
  unfolding remove_element move_to_front
  get c key now = elim (c.cache key) [
    | none ↦ ret (c, none)
    | some e ↦ do
      x ← or_panic (element e c.list)
      if before now x.value.result.expired
          then ret (record c { list = move_to_front e c.list }, some x.value.result)
          else (do c' ← remove_element c e; ret (c', none))
  ]

  -- The end of `Add`: evict the oldest element if the cache is over its capacity.
  unfoldable pub evict : LruCache K → Go (LruCache K)
  unfolding remove_element back
  evict c =
      if ltb_ℤ c.capacity (pos (len c))
      then elim (back c.list) [ none ↦ ret c | some oldest ↦ remove_element c oldest ]
      else ret c

  -- `Add`
  unfoldable pub add : LruCache K → K → ValidationResult → ℤ → Go (LruCache K)
  unfolding evict store_result move_to_front push_front map_set
  add c key result now =
      let r : ValidationResult = record result { expired = now +ℤ c.ttl } in
      elim (c.cache key) [
        | some e ↦ do
          _ ← or_panic (element e c.list)
          ret (record c { list = move_to_front e (store_result e r c.list) })
        | none ↦ evict (record c {
          list = push_front c.fresh (record { key = key; result = r }) c.list;
          cache = map_set key c.fresh c.cache;
          fresh = suc c.fresh;
        })
      ]

  -- `Remove`
  unfoldable pub delete : LruCache K → K → Go (LruCache K)
  unfolding remove_element
  delete c key = elim (c.cache key) [ none ↦ ret c | some e ↦ remove_element c e ]
