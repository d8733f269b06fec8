-- ===== src/Hook/Calls.antt =====
-- `Validate` as a sequence of the accesses that other goroutines see.
use teapod_tun2socks.Prelude.{
  ℕ, ◌≡◌, refl, inl, inr, Bool, false, ℤ, pos, negsuc, none, some, List, ret, Option-cases, Go, ◌∷◌,
  true, ◌⊎◌, ap, sym, ◌∙◌,
}
use teapod_tun2socks.Cache.Elements.{ValidationResult}
use teapod_tun2socks.Cache.Refinement.{get_refines}
use teapod_tun2socks.Cache.Writes.{add_refines}
use teapod_tun2socks.Key.{ConnectionKey, ConnectionKey-discrete, new_key}
use teapod_tun2socks.Hook.{EngineHook, validate}
use teapod_tun2socks.Hook.Decisions.{cached}
use teapod_tun2socks.Hook.Interleaving.{
  System, Ask, Call, answer_to, Reach, next, look_up, answer, store, Answered, with_cache,
  hit-Answered, Reach-Justified,
}
use teapod_tun2socks.Cache.Lru

-- How a call decides on the flow `k` in the state `s` and the world `w`; the decision is `d`, and
-- the call leaves `t` and `w'`. A decision in the cache is an answer of an earlier call of a
-- validator, and nobody is asked. Without one, the validator that is set is asked once, about this
-- flow and in this world; if none is set, the flow is denied.
pub data Decided {V W : Type 0} (ask : Ask V W) (k : ConnectionKey) (s : System V W) (now : ℤ)
    (w : W) (d : Bool × ℤ) (w' : W) (t : System V W) : Type 0 where
  remembered :
      (r : ValidationResult)
      → cached s.hook k now ≡ some r
      → d ≡ (r.allowed, r.uid)
      → Answered ask k d.0 s.calls
      → w' ≡ w
      → t.calls ≡ s.calls
      → Decided ask k s now w d w' t
  unset :
      cached s.hook k now ≡ none
      → s.hook.validator ≡ none
      → d ≡ (false, negsuc 0)
      → w' ≡ w
      → t.calls ≡ s.calls
      → Decided ask k s now w d w' t
  asked :
      (v : V)
      → cached s.hook k now ≡ none
      → s.hook.validator ≡ some v
      → d ≡ ((answer_to ask v k w).0, negsuc 0)
      → w' ≡ (answer_to ask v k w).1
      → t.calls ≡ record { validator = v; key = k; world = w } ∷ s.calls
      → Decided ask k s now w d w' t

-- What a call adds to the calls of validators: nothing, or one call of the validator that is set,
-- about this flow and in this world, which the answer leaves as `w'`.
abbrev pub IsLogged :
    {V W : Type 0} → Ask V W → ConnectionKey → System V W → W → W → System V W → Type 0
IsLogged {V = V} ask k s w w' t =
    ((t.calls ≡ s.calls) × (w' ≡ w))
    ⊎ ((v : V) × (s.hook.validator ≡ some v)
        × (t.calls ≡ record { validator = v; key = k; world = w } ∷ s.calls)
        × (w' ≡ (answer_to ask v k w).1))

pub Decided-IsLogged :
    {V W : Type 0} {ask : Ask V W} {k : ConnectionKey} {s : System V W} {now : ℤ} {w : W}
    {d : Bool × ℤ} {w' : W} {t : System V W}
    → Decided ask k s now w d w' t
    → IsLogged ask k s w w' t
Decided-IsLogged (remembered r hit decides known same_world same) = inl (same, same_world)
Decided-IsLogged (unset miss none_set decides same_world same) = inl (same, same_world)
Decided-IsLogged (asked v miss set decides world logs) = inr (v, set, logs, world)

-- A decision to allow a flow was given by a validator.
pub allowed-Answered :
    {V W : Type 0} {ask : Ask V W} {k : ConnectionKey} {s : System V W} {now : ℤ} {w : W}
    {d : Bool × ℤ} {w' : W} {t : System V W}
    → d.0 ≡ true
    → Decided ask k s now w d w' t
    → Answered ask k true t.calls
allowed-Answered allowed (remembered r hit decides known same_world same) =
    rw (same) (rw allowed at known)
allowed-Answered allowed (unset miss none_set decides same_world same) =
    absurd (cc (allowed, ap (λ d. d.0) decides))
allowed-Answered allowed (asked v miss set decides world logs) =
    rw (logs) (inl (refl, sym (ap (λ d. d.0) decides) ∙ allowed))

module _ (ip_text : List ℕ → List ℕ) {V W : Type 0}
    (ask : V → List ℕ → ℤ → List ℕ → ℤ → ℤ → W → Bool × W) (src_ip : List ℕ) (src_port : ℕ)
    (dst_ip : List ℕ) (dst_port proto : ℕ) where
  abbrev key : ConnectionKey
  key = new_key ip_text src_ip src_port dst_ip dst_port proto

  module _ {capacity ttl_seconds : ℤ} (s : System V W) (t1 t2 : ℤ) (w : W)
      (reach : Reach ask capacity ttl_seconds s) where
    abbrev call : Go (EngineHook V × (Bool × ℤ) × W)
    call = validate ip_text ask s.hook src_ip src_port dst_ip dst_port proto t1 t2 w

    abbrev Done : Type 0
    Done =
        (h' : EngineHook V) × (d : Bool × ℤ) × (w' : W) × (call ≡ ret (h', d, w'))
        × ((t : System V W) × Reach ask capacity ttl_seconds t
            × (t.hook ≡ h')
            × Decided ask key s t1 w d w' t)

    done_hit : (r : ValidationResult) → cached s.hook key t1 ≡ some r → Done
    unfolding validate
    done_hit r hit =
        let (c, got, after) =
          get_refines ConnectionKey-discrete s.hook.cache key t1 (Reach-Justified reach).valid in
        let got' : Lru.get ConnectionKey-discrete s.hook.cache key t1 ≡ ret (c, some r) =
          simp hit at got in
        (
          record s.hook { cache = c },
          (r.allowed, r.uid),
          w,
          simp (got, hit),
          (
            with_cache s c,
            next reach (look_up key t1 c (some r) got'),
            refl,
            remembered r hit refl (hit-Answered key t1 c r reach got') refl refl,
          ),
        )

    done_unset : cached s.hook key t1 ≡ none → s.hook.validator ≡ none → Done
    unfolding validate
    done_unset miss none_set =
        let (c, got, after) =
          get_refines ConnectionKey-discrete s.hook.cache key t1 (Reach-Justified reach).valid in
        (
          record s.hook { cache = c },
          (false, negsuc 0),
          w,
          simp (got, miss, none_set),
          (
            with_cache s c,
            next reach (look_up key t1 c none (simp miss at got)),
            refl,
            unset miss none_set refl refl refl,
          ),
        )

    done_asks : (v : V) → cached s.hook key t1 ≡ none → s.hook.validator ≡ some v → Done
    unfolding validate
    done_asks v miss set =
        let (c, got, after) =
          get_refines ConnectionKey-discrete s.hook.cache key t1 (Reach-Justified reach).valid in
        let (b, w') = answer_to ask v key w in
        let r : ValidationResult = record { allowed = b; uid = negsuc 0; expired = pos 0 } in
        let (c', added, _) = add_refines ConnectionKey-discrete c key r t2 after.valid in
        let call_of : Call V W = record { validator = v; key = key; world = w } in
        let then : System V W = record (with_cache s c) { calls = call_of ∷ s.calls } in
        (
          record s.hook { cache = c' },
          (b, negsuc 0),
          w',
          simp (got, miss, set, added),
          (
            with_cache then c',
            next (next (next reach (look_up key t1 c none (simp miss at got))) (answer key v w set))
                (store key b t2 c' (inl (refl, refl)) added),
            refl,
            asked v miss set refl refl refl,
          ),
        )

    -- In every state that the goroutines can reach, `Validate` returns, and its accesses are steps
    -- of the system. A decision in the cache that has not expired is returned; it is what a
    -- validator answered in an earlier call about this very flow, and nobody is asked. Otherwise the
    -- validator that is set is called once, with this flow and in this state of the world, and its
    -- answer is the decision; if none is set, the flow is denied.
    pub validate-Decided : Done
    validate-Decided = elim (Option-cases (cached s.hook key t1)) [
      | inr (r, hit) ↦ done_hit r hit
      | inl miss ↦ elim (Option-cases s.hook.validator) [
        | inl none_set ↦ done_unset miss none_set
        | inr (v, set) ↦ done_asks v miss set
      ]
    ]
