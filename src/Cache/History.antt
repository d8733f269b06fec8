-- ===== src/Cache/History.antt =====
-- Any sequence of calls to the cache, as the goroutines' calls are serialised by the mutex.
-- A history is a list of calls, the latest first.
use mathlib.Core.Logic.{ite}
use teapod_tun2socks.Prelude.{
  ◌≡◌, refl, ◌∙◌, ℤ, ◌+ℤ◌, Option, none, some, List, [], ◌∷◌, arith, Go, ret, ◌>>=◌, ◌≤◌, true,
  pos_part, ap, ◌<◌,
}
use teapod_tun2socks.Cache.Elements.{ValidationResult}
use teapod_tun2socks.Cache.Lru.{LruCache, new, get, add, delete, len, before}
use teapod_tun2socks.Cache.Spec.{
  view, find, forget, read, write, find-forget, find-read, find-write, find-write_self, read_fresh,
  read_hit,
}
use teapod_tun2socks.Cache.Linked.{IsValid}
use teapod_tun2socks.Cache.Refinement.{After, new-IsValid, get_refines, delete_refines}
use teapod_tun2socks.Cache.Writes.{add_refines, add-After}

pub data Call (K : Type 0) : Type 0 where
  get_call : K → ℤ → Call K
  add_call : K → ValidationResult → ℤ → Call K
  remove_call : K → Call K

module _ {K : Type 0} (dec : Discrete K) where
  unfoldable pub step : Call K → LruCache K → Go (LruCache K)
  step (get_call k now) c = do (c', _) ← get dec c k now; ret c'
  step (add_call k r now) c = add dec c k r now
  step (remove_call k) c = delete dec c k

  unfoldable pub run : List (Call K) → LruCache K → Go (LruCache K)
  unfolding step
  run [] c = ret c
  run (call ∷ calls) c = do c' ← run calls c; step call c'

  -- The decision that was last added for a key and not removed since, with its time stamp.
  unfoldable pub latest : ℤ → K → List (Call K) → Option ValidationResult
  latest ttl k [] = none
  latest ttl k (get_call _ _ ∷ calls) = latest ttl k calls
  latest ttl k (add_call q r now ∷ calls) =
      ite (dec q k) (some (record r { expired = now +ℤ ttl })) (latest ttl k calls)
  latest ttl k (remove_call q ∷ calls) = ite (dec q k) none (latest ttl k calls)

  -- Every decision in the list is the latest one for its key.
  abbrev Current : ℤ → List (Call K) → List (K × ValidationResult) → Type 0
  Current ttl calls l =
      (k : K) (r : ValidationResult) → find dec k l ≡ some r → latest ttl k calls ≡ some r

  -- What a call leaves of the list that the cache shows.
  unfoldable pub spec_step :
      ℤ → ℤ → Call K → List (K × ValidationResult) → List (K × ValidationResult)
  spec_step capacity ttl (get_call k now) l = (read dec l k now).0
  spec_step capacity ttl (add_call k r now) l = write dec capacity ttl l k r now
  spec_step capacity ttl (remove_call k) l = forget dec k l

  unfoldable pub spec_run : ℤ → ℤ → List (Call K) → List (K × ValidationResult)
  spec_run capacity ttl [] = []
  spec_run capacity ttl (call ∷ calls) = spec_step capacity ttl call (spec_run capacity ttl calls)

  step_refines :
      (call : Call K) (c : LruCache K)
      → IsValid dec c
      → (c' : LruCache K) × (step call c ≡ ret c')
        × After dec c c' (spec_step c.capacity c.ttl call (view c.list))
  unfolding step spec_step
  step_refines (get_call k now) c v =
      let (c', ran, a) = get_refines dec c k now v in (c', rw ran refl, a)
  step_refines (add_call k r now) c v = add_refines dec c k r now v
  step_refines (remove_call k) c v = delete_refines dec c k v

  -- Every history runs to its end, and leaves a valid cache that shows what the specification shows.
  pub run_refines :
      (capacity ttl : ℤ) (calls : List (Call K))
      → (c : LruCache K) × (run calls (new capacity ttl) ≡ ret c)
        × After dec (new capacity ttl) c (spec_run capacity ttl calls)
  unfolding run spec_run new
  run_refines capacity ttl [] =
      let start = new-IsValid dec capacity ttl in
      (
        new capacity ttl,
        refl,
        record { valid = start.0; shows = start.1; same_capacity = refl; same_ttl = refl },
      )
  run_refines capacity ttl (call ∷ calls) =
      let (c, ran, a) = run_refines capacity ttl calls in
      let (c', stepped, b) = step_refines call c a.valid in
      (
        c',
        rw ran stepped,
        record {
          valid = b.valid;
          shows = rw (a.same_capacity, a.same_ttl, a.shows) at b.shows;
          same_capacity = b.same_capacity ∙ a.same_capacity;
          same_ttl = b.same_ttl ∙ a.same_ttl;
        },
      )

  Current-step :
      (capacity ttl : ℤ) (call : Call K) (calls : List (Call K)) (l : List (K × ValidationResult))
      → Current ttl calls l
      → Current ttl (call ∷ calls) (spec_step capacity ttl call l)
  unfolding spec_step latest
  Current-step capacity ttl (get_call k now) calls l h =
      λ q r f. h q r (find-read dec k q now l r f)
  Current-step capacity ttl (add_call k r now) calls l h =
      λ q s f. ground (arith, find-write dec capacity ttl now k q r s l f, h q s)
  Current-step capacity ttl (remove_call k) calls l h =
      λ q r f. ground (arith, find-forget dec k q l, h q r)

  Current-run :
      (capacity ttl : ℤ) (calls : List (Call K)) → Current ttl calls (spec_run capacity ttl calls)
  unfolding spec_run find
  Current-run capacity ttl [] = λ k r f. absurd (ground arith)
  Current-run capacity ttl (call ∷ calls) =
      Current-step capacity ttl call calls (spec_run capacity ttl calls)
        (Current-run capacity ttl calls)

  -- In every history no call panics, and the cache never holds more entries than its capacity.
  pub run-bounded :
      (capacity ttl : ℤ) (calls : List (Call K))
      → (c : LruCache K) × (run calls (new capacity ttl) ≡ ret c) × (len c ≤ pos_part capacity)
  unfolding len new
  run-bounded capacity ttl calls =
      let (c, ran, a) = run_refines capacity ttl calls in
      (c, ran, omega (arith, a.valid.bounded, ap pos_part a.same_capacity))

  -- After any history, a `Get` that hits returns the decision that was last added for this very
  -- key and not removed since, and only while its time to live has not run out.
  pub get-latest :
      (capacity ttl now : ℤ) (calls : List (Call K)) (k : K) (c c' : LruCache K)
      (r : ValidationResult)
      → run calls (new capacity ttl) ≡ ret c
      → get dec c k now ≡ ret (c', some r)
      → (latest ttl k calls ≡ some r) × (before now r.expired ≡ true)
  get-latest capacity ttl now calls k c c' r ran hit =
      let (d, ran', a) = run_refines capacity ttl calls in
      let same : c ≡ d = ground arith in
      let (e, got, _) = get_refines dec d k now a.valid in
      let answer : (read dec (view d.list) k now).1 ≡ some r = cc (got, hit, same) in
      let (known, fresh) = read_hit dec (view d.list) k now r answer in
      (Current-run capacity ttl calls k r (rw a.shows at known), fresh)

  -- Right after an `Add`, a `Get` before the time to live has run out returns the decision added.
  pub get-add :
      (c c' : LruCache K) (k : K) (r : ValidationResult) (t now : ℤ)
      → IsValid dec c
      → 0 < pos_part c.capacity
      → add dec c k r t ≡ ret c'
      → before now (t +ℤ c.ttl) ≡ true
      → (d : LruCache K) × (get dec c' k now ≡ ret (d, some (record r { expired = t +ℤ c.ttl })))
  get-add c c' k r t now v room ran early =
      let a = add-After dec c c' k r t v ran in
      let (d, got, _) = get_refines dec c' k now a.valid in
      let stamped : ValidationResult = record r { expired = t +ℤ c.ttl } in
      let stored : find dec k (view c'.list) ≡ some stamped =
        rw a.shows (find-write_self dec c.capacity c.ttl t k r (view c.list) room) in
      (d, rw (read_fresh dec (view c'.list) k now stamped stored early) at got)
