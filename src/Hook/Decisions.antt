-- ===== src/Hook/Decisions.antt =====
-- What `Validate` decides, on every branch.
use teapod_tun2socks.Prelude.{
  ℕ, ◌<◌, ◌≡◌, refl, Bool, true, false, ℤ, pos, negsuc, pos_part, ◌+ℤ◌, Option, none, some, List,
  ret,
}
use teapod_tun2socks.Cache.Elements.{ValidationResult}
use teapod_tun2socks.Cache.Lru.{LruCache, before}
use teapod_tun2socks.Cache.Spec.{view, find, read, write, find-write_self, read_fresh}
use teapod_tun2socks.Cache.Linked.{IsValid}
use teapod_tun2socks.Cache.Refinement.{get_refines}
use teapod_tun2socks.Cache.Writes.{add_refines}
use teapod_tun2socks.Key.{ConnectionKey, ConnectionKey-discrete, new_key}
use teapod_tun2socks.Hook.{EngineHook, validate}

abbrev pub IsValidHook : {V : Type 0} → EngineHook V → Type 0
IsValidHook h = IsValid ConnectionKey-discrete h.cache

-- The decision of the cache for a key at a time, if it has one that has not expired.
abbrev pub cached : {V : Type 0} → EngineHook V → ConnectionKey → ℤ → Option ValidationResult
cached h k now = (read ConnectionKey-discrete (view h.cache.list) k now).1

module _ (ip_text : List ℕ → List ℕ) {V W : Type 0}
    (ask : V → List ℕ → ℤ → List ℕ → ℤ → ℤ → W → Bool × W) (src_ip : List ℕ) (src_port : ℕ)
    (dst_ip : List ℕ) (dst_port proto : ℕ) where
  abbrev key : ConnectionKey
  key = new_key ip_text src_ip src_port dst_ip dst_port proto

  -- The answer of a validator to this very flow.
  abbrev pub answer_of : V → W → Bool × W
  answer_of v w =
      ask v (ip_text src_ip) (pos src_port) (ip_text dst_ip) (pos dst_port) (pos proto) w

  -- A call of `Validate` that returns the decision `d` and leaves the hook `h'` and the world `w'`.
  abbrev pub Returns : EngineHook V → ℤ → ℤ → W → EngineHook V → Bool × ℤ → W → Type 0
  Returns h t1 t2 w h' d w' =
      (validate ip_text ask h src_ip src_port dst_ip dst_port proto t1 t2 w ≡ ret (h', d, w'))
      × IsValidHook h'
      × (h'.validator ≡ h.validator)

  -- A decision in the cache that has not expired is returned as it is, and nobody is asked.
  pub validate_hit :
      (h : EngineHook V) (t1 t2 : ℤ) (w : W) (r : ValidationResult)
      → IsValidHook h
      → cached h key t1 ≡ some r
      → (h' : EngineHook V) × Returns h t1 t2 w h' (r.allowed, r.uid) w
  unfolding validate
  validate_hit h t1 t2 w r valid hit =
      let (c, got, after) = get_refines ConnectionKey-discrete h.cache key t1 valid in
      (record h { cache = c }, (rw (got, hit) refl, after.valid, refl))

  -- With no decision in the cache and no validator set, the flow is denied.
  pub validate_unset :
      (h : EngineHook V) (t1 t2 : ℤ) (w : W)
      → IsValidHook h
      → cached h key t1 ≡ none
      → h.validator ≡ none
      → (h' : EngineHook V) × Returns h t1 t2 w h' (false, negsuc 0) w
  unfolding validate
  validate_unset h t1 t2 w valid miss unset =
      let (c, got, after) = get_refines ConnectionKey-discrete h.cache key t1 valid in
      (record h { cache = c }, (simp (got, miss, unset), after.valid, refl))

  -- The decision that a miss leaves in the cache, seen while its time to live lasts.
  cached-store :
      (c c' : LruCache ConnectionKey) (k : ConnectionKey)
      (l : List (ConnectionKey × ValidationResult)) (r : ValidationResult) (t1 t2 t3 : ℤ)
      (capacity ttl : ℤ)
      → view c'.list ≡ write ConnectionKey-discrete capacity ttl l k r t2
      → 0 < pos_part capacity
      → before t3 (t2 +ℤ ttl) ≡ true
      → (read ConnectionKey-discrete (view c'.list) k t3).1
        ≡ some (record r { expired = t2 +ℤ ttl })
  cached-store c c' k l r t1 t2 t3 capacity ttl shows room early =
      let stamped : ValidationResult = record r { expired = t2 +ℤ ttl } in
      let stored : find ConnectionKey-discrete k (view c'.list) ≡ some stamped =
        rw shows (find-write_self ConnectionKey-discrete capacity ttl t2 k r l room) in
      rw (read_fresh ConnectionKey-discrete (view c'.list) k t3 stamped stored early)

  -- With no decision in the cache, the validator is asked about this very flow, and its answer is
  -- the decision.
  pub validate_asks :
      (h : EngineHook V) (t1 t2 : ℤ) (w : W) (v : V)
      → IsValidHook h
      → cached h key t1 ≡ none
      → h.validator ≡ some v
      → (h' : EngineHook V) × Returns h t1 t2 w h' ((answer_of v w).0, negsuc 0) (answer_of v w).1
  unfolding validate
  validate_asks h t1 t2 w v valid miss set =
      let (c, got, after) = get_refines ConnectionKey-discrete h.cache key t1 valid in
      let (c', added, after') =
        add_refines ConnectionKey-discrete c key
          (record { allowed = (answer_of v w).0; uid = negsuc 0; expired = pos 0 }) t2
          after.valid in
      (record h { cache = c' }, (simp (got, miss, set, added), after'.valid, refl))

  -- Once the validator has answered, the same flow gets the same decision for the time to live of
  -- the cache, at the first repetition, without asking again.
  pub validate_repeat :
      (h : EngineHook V) (t1 t2 t3 t4 : ℤ) (w u : W) (v : V)
      → IsValidHook h
      → cached h key t1 ≡ none
      → h.validator ≡ some v
      → 0 < pos_part h.cache.capacity
      → before t3 (t2 +ℤ h.cache.ttl) ≡ true
      → (h' : EngineHook V) × (h'' : EngineHook V) × Returns h t1 t2 w h'
          ((answer_of v w).0, negsuc 0)
          (answer_of v w).1
        × Returns h' t3 t4 u h'' ((answer_of v w).0, negsuc 0) u
  unfolding validate
  validate_repeat h t1 t2 t3 t4 w u v valid miss set room early =
      let (c, got, after) = get_refines ConnectionKey-discrete h.cache key t1 valid in
      let r : ValidationResult = record {
        allowed = (answer_of v w).0;
        uid = negsuc 0;
        expired = pos 0;
      } in
      let (c', added, after') = add_refines ConnectionKey-discrete c key r t2 after.valid in
      let hit =
        cached-store c c' key (view c.list) r t1 t2 t3 c.capacity c.ttl after'.shows
          (rw after.same_capacity room) (rw after.same_ttl early) in
      let (h'', again) =
        validate_hit (record h { cache = c' }) t3 t4 u (record r { expired = t2 +ℤ c.ttl })
          after'.valid hit in
      (record h { cache = c' }, h'', (simp (got, miss, set, added), after'.valid, refl), again)
