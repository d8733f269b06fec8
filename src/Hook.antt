-- ===== src/Hook.antt =====
-- go/engine_hook.go: `EngineHook`, which asks the cache and, on a miss, the Kotlin validator.
-- The validator is code outside of the Go library: `ask` gives its answer and the new state `W` of
-- the world. `ip_text` is `net.IP.String`. Each `time.Now()` is an argument. Logging is left out.
pub mod Calls
pub mod Interleaving
pub mod Decisions
use teapod_tun2socks.Prelude.{
  ℕ, ℤ, pos, negsuc, Bool, false, Option, none, some, List, Go, ret, ◌>>=◌, wrap_i64, scale,
}
use teapod_tun2socks.Cache.Lru.{LruCache}
use teapod_tun2socks.Cache.Lru
use teapod_tun2socks.Key.{ConnectionKey, ConnectionKey-discrete, new_key}

-- `EngineHook`; `none` for a nil validator
pub record EngineHook (V : Type 0) : Type 0 where
  pub cache : LruCache ConnectionKey
  pub validator : Option V
  pub log_enabled : Bool

-- `time.Duration(seconds) * time.Second` in nanoseconds, wrapped to 64 bits
unfoldable pub seconds : ℤ → ℤ
unfolding wrap_i64
seconds s = wrap_i64 (scale 1000000000 s)

module _ {V : Type 0} where
  -- `NewEngineHook`
  unfoldable pub new_hook : ℤ → ℤ → EngineHook V
  unfolding seconds
  new_hook capacity ttl_seconds = record {
    cache = Lru.new capacity (seconds ttl_seconds);
    validator = none;
    log_enabled = false;
  }

  -- `SetValidator`, `SetLogEnabled`, `CacheLen`
  unfoldable pub set_validator : EngineHook V → Option V → EngineHook V
  set_validator h v = record h { validator = v }

  unfoldable pub set_log_enabled : EngineHook V → Bool → EngineHook V
  set_log_enabled h enabled = record h { log_enabled = enabled }

  unfoldable pub cache_len : EngineHook V → ℕ
  cache_len h = Lru.len h.cache

module _ (ip_text : List ℕ → List ℕ) {V W : Type 0}
    (ask : V → List ℕ → ℤ → List ℕ → ℤ → ℤ → W → Bool × W) where
  -- `Validate` after a miss in the cache: (allowed, UID), and the new state of the world
  unfoldable pub validate_miss :
      EngineHook V → List ℕ → ℕ → List ℕ → ℕ → ℕ → ℤ → W → Go (EngineHook V × (Bool × ℤ) × W)
  validate_miss h src_ip src_port dst_ip dst_port proto now w = elim h.validator [
    | none ↦ ret (h, (false, negsuc 0), w)
    | some v ↦ do
      let (allowed, w') =
          ask v (ip_text src_ip) (pos src_port) (ip_text dst_ip) (pos dst_port) (pos proto) w
      c ←
          Lru.add ConnectionKey-discrete h.cache
            (new_key ip_text src_ip src_port dst_ip dst_port proto)
            (record { allowed = allowed; uid = negsuc 0; expired = pos 0 }) now
      ret (record h { cache = c }, (allowed, negsuc 0), w')
  ]

  -- `Validate`; `t1` is the time of the read of the cache, `t2` that of the write
  unfoldable pub validate :
      EngineHook V → List ℕ → ℕ → List ℕ → ℕ → ℕ → ℤ → ℤ → W → Go (EngineHook V × (Bool × ℤ) × W)
  unfolding validate_miss
  validate h src_ip src_port dst_ip dst_port proto t1 t2 w = do
    (c, found) ←
        Lru.get ConnectionKey-discrete h.cache
          (new_key ip_text src_ip src_port dst_ip dst_port proto) t1
    elim found [
      | some r ↦ ret (record h { cache = c }, (r.allowed, r.uid), w)
      | none ↦ validate_miss (record h { cache = c }) src_ip src_port dst_ip dst_port proto t2 w
    ]

  -- `Invalidate`
  unfoldable pub invalidate : EngineHook V → List ℕ → ℕ → List ℕ → ℕ → ℕ → Go (EngineHook V)
  invalidate h src_ip src_port dst_ip dst_port proto = do
    c ←
        Lru.delete ConnectionKey-discrete h.cache
          (new_key ip_text src_ip src_port dst_ip dst_port proto)
    ret (record h { cache = c })
