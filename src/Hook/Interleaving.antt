-- ===== src/Hook/Interleaving.antt =====
-- `Validate` from many goroutines at once. The mutex of the cache and that of the validator make
-- the accesses atomic, and between the read of the cache, the answer of a validator and the write
-- of the cache any other goroutine may run. `Invalidate` and `SetValidator` may come at any time.
use teapod_tun2socks.Cache.Linked.{IsValid}
use mathlib.Core.Path.{subst₂}
use mathlib.Core.Logic.{ite, if_pos, if_neg}
use teapod_tun2socks.Prelude.{
  ℕ, ◌≡◌, refl, sym, ◌∙◌, ◌⊎◌, inr, Bool, ℤ, pos, negsuc, Option, some, List, [], ◌∷◌, arith, ret,
}
use teapod_tun2socks.Cache.Elements.{ValidationResult}
use teapod_tun2socks.Cache.Lru.{LruCache, new}
use teapod_tun2socks.Cache.Lru
use teapod_tun2socks.Cache.Spec.{
  view, find, find-read, find-write, find-forget, forget, read, read_hit,
}
use teapod_tun2socks.Cache.Refinement.{After, new-IsValid, get-After, delete-After, get_refines}
use teapod_tun2socks.Cache.Writes.{add-After}
use teapod_tun2socks.Key.{ConnectionKey, ConnectionKey-discrete}
use teapod_tun2socks.Hook.{EngineHook, new_hook, set_validator, seconds}

abbrev dec : Discrete ConnectionKey
dec = ConnectionKey-discrete

-- The Kotlin callback: the answer of a validator to a flow, and the world that it leaves.
abbrev pub Ask : Type 0 → Type 0 → Type 0
Ask V W = V → List ℕ → ℤ → List ℕ → ℤ → ℤ → W → Bool × W

abbrev pub answer_to : {V W : Type 0} → Ask V W → V → ConnectionKey → W → Bool × W
answer_to ask v k w = ask v k.src_ip (pos k.src_port) k.dst_ip (pos k.dst_port) (pos k.proto) w

-- A call of a validator: which one, about which flow, and in which state of the world.
pub record Call (V W : Type 0) : Type 0 where
  pub validator : V
  pub key : ConnectionKey
  pub world : W

-- One of the calls was about the flow `k`, and its answer was `b`.
abbrev pub Answered : {V W : Type 0} → Ask V W → ConnectionKey → Bool → List (Call V W) → Type 0
Answered ask k b [] = ⊥
Answered ask k b (q ∷ log) =
    ((q.key ≡ k) × ((answer_to ask q.validator q.key q.world).0 ≡ b)) ⊎ Answered ask k b log

-- The hook, and every call of a validator so far.
pub record System (V W : Type 0) : Type 0 where
  pub hook : EngineHook V
  pub calls : List (Call V W)

abbrev pub with_cache : {V W : Type 0} → System V W → LruCache ConnectionKey → System V W
with_cache s c = record s { hook = record s.hook { cache = c } }

-- One access by one goroutine. The validator that is set is called, in any state of the world; a
-- write stores an answer that was given before.
pub data Step {V W : Type 0} (ask : Ask V W) (s : System V W) : System V W → Type 0 where
  look_up :
      (k : ConnectionKey) (now : ℤ) (c : LruCache ConnectionKey) (found : Option ValidationResult)
      → Lru.get ConnectionKey-discrete s.hook.cache k now ≡ ret (c, found)
      → Step ask s (with_cache s c)
  answer :
      (k : ConnectionKey) (v : V) (w : W)
      → s.hook.validator ≡ some v
      → Step ask s (record s { calls = record { validator = v; key = k; world = w } ∷ s.calls })
  store :
      (k : ConnectionKey) (b : Bool) (now : ℤ) (c : LruCache ConnectionKey)
      → Answered ask k b s.calls
      → Lru.add ConnectionKey-discrete s.hook.cache k
          (record { allowed = b; uid = negsuc 0; expired = pos 0 })
          now
        ≡ ret c
      → Step ask s (with_cache s c)
  invalidate :
      (k : ConnectionKey) (c : LruCache ConnectionKey)
      → Lru.delete ConnectionKey-discrete s.hook.cache k ≡ ret c
      → Step ask s (with_cache s c)
  change_validator : (v : Option V) → Step ask s (record s { hook = set_validator s.hook v })

abbrev pub start : {V W : Type 0} → ℤ → ℤ → System V W
start capacity ttl_seconds = record { hook = new_hook capacity ttl_seconds; calls = [] }

pub data Reach {V W : Type 0} (ask : Ask V W) (capacity ttl_seconds : ℤ) : System V W → Type 0 where
  here : Reach ask capacity ttl_seconds (start capacity ttl_seconds)
  next :
      {s t : System V W}
      → Reach ask capacity ttl_seconds s
      → Step ask s t
      → Reach ask capacity ttl_seconds t

-- Each decision in the cache is an answer of a validator for its very key.
pub record Justified {V W : Type 0} (ask : Ask V W) (s : System V W) : Type 0 where
  pub valid : IsValid dec s.hook.cache
  pub answered :
      (k : ConnectionKey) (r : ValidationResult)
      → find dec k (view s.hook.cache.list) ≡ some r
      → Answered ask k r.allowed s.calls

Justified-After :
    {V W : Type 0} (ask : Ask V W) (s : System V W) (c : LruCache ConnectionKey)
    (l : List (ConnectionKey × ValidationResult))
    → After dec s.hook.cache c l
    → ((k : ConnectionKey) (r : ValidationResult)
        → find dec k l ≡ some r
        → Answered ask k r.allowed s.calls)
    → Justified ask (with_cache s c)
Justified-After ask s c l a h = record {
  valid = a.valid;
  answered = λ k r f. h k r (rw a.shows at f);
}

stored-Answered :
    {V W : Type 0} (ask : Ask V W) (s : System V W) (k q : ConnectionKey) (b : Bool)
    (stamped r : ValidationResult)
    → Justified ask s
    → Answered ask k b s.calls
    → stamped.allowed ≡ b
    → ite (dec k q) (some stamped) (find dec q (view s.hook.cache.list)) ≡ some r
    → Answered ask q r.allowed s.calls
stored-Answered ask s k q b stamped r j known same h = elim (dec k q) [
  | yes p ↦
      let e : some stamped ≡ some r = sym (if_pos (dec k q) p _ _) ∙ h in
      subst₂ (λ z a. Answered ask z a s.calls) p (sym same ∙ some_allowed e) known
  | no p ↦ j.answered q r (sym (if_neg (dec k q) p _ _) ∙ h)
]
  where
    some_allowed : some stamped ≡ some r → stamped.allowed ≡ r.allowed
    some_allowed e = ground arith

forgotten :
    (k q : ConnectionKey) (l : List (ConnectionKey × ValidationResult)) (r : ValidationResult)
    → find dec q (forget dec k l) ≡ some r
    → find dec q l ≡ some r
forgotten k q l r h = ground (arith, find-forget dec k q l)

Step-Justified :
    {V W : Type 0} {ask : Ask V W} {s t : System V W}
    → Step ask s t
    → Justified ask s
    → Justified ask t
Step-Justified {s} (look_up k now c found got) j =
    Justified-After _ s c _ (get-After dec s.hook.cache c k now found j.valid got)
      (λ q r f. j.answered q r (find-read dec k q now (view s.hook.cache.list) r f))
Step-Justified (answer k v w set) j = record {
  valid = j.valid;
  answered = λ q r f. inr (j.answered q r f);
}
Step-Justified {s} (store k b now c known added) j =
    Justified-After _ s c _ (add-After dec s.hook.cache c k _ now j.valid added) (λ q r f.
      stored-Answered _ s k q b _ r j known refl (
        find-write dec s.hook.cache.capacity s.hook.cache.ttl now k q _ r (view s.hook.cache.list)
          f))
Step-Justified {s} (invalidate k c gone) j =
    Justified-After _ s c _ (delete-After dec s.hook.cache c k j.valid gone)
      (λ q r f. j.answered q r (forgotten k q (view s.hook.cache.list) r f))
Step-Justified (change_validator v) j =
    unfold set_validator in record { valid = j.valid; answered = j.answered }

start-Justified :
    {V W : Type 0} (ask : Ask V W) (capacity ttl_seconds : ℤ)
    → Justified ask (start {V = V} {W = W} capacity ttl_seconds)
unfolding new_hook new find view
start-Justified ask capacity ttl_seconds = record {
  valid = (new-IsValid dec capacity (seconds ttl_seconds)).0;
  answered = λ k r f. absurd (ground arith);
}

pub Reach-Justified :
    {V W : Type 0} {ask : Ask V W} {capacity ttl_seconds : ℤ} {s : System V W}
    → Reach ask capacity ttl_seconds s
    → Justified ask s
Reach-Justified {ask = ask} {capacity} {ttl_seconds} here = start-Justified ask capacity ttl_seconds
Reach-Justified (next r st) = Step-Justified st (Reach-Justified r)

-- In every interleaving, a decision that a goroutine reads from the cache is one that a validator
-- gave for the very flow that is asked about: the same source and destination, both addresses and
-- both ports, and the same protocol.
pub hit-Answered :
    {V W : Type 0} {ask : Ask V W} {capacity ttl_seconds : ℤ} {s : System V W} (k : ConnectionKey)
    (now : ℤ) (c : LruCache ConnectionKey) (r : ValidationResult)
    → Reach ask capacity ttl_seconds s
    → Lru.get ConnectionKey-discrete s.hook.cache k now ≡ ret (c, some r)
    → Answered ask k r.allowed s.calls
hit-Answered {s} k now c r reach hit =
    let j = Reach-Justified reach in
    let (d, got, _) = get_refines dec s.hook.cache k now j.valid in
    let answer : (read dec (view s.hook.cache.list) k now).1 ≡ some r = cc (got, hit) in
    j.answered k r (read_hit dec (view s.hook.cache.list) k now r answer).0
