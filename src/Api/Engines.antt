-- ===== src/Api/Engines.antt =====
-- The engines that the API makes, holds and forgets, in every order of its calls and of the steps
-- of the engines.
use teapod_tun2socks.Prelude.{
  ℕ, zero, suc, ◌≡◌, refl, sym, ◌∙◌, ℤ, List, [], ◌∷◌, ◌++◌, length, length-append, length-set,
  get_elem?, set, Bool, Option, none, some, arith,
}
use teapod_tun2socks.Engine.Lifecycle.{
  Life, new_life, Created, created, create_nic_failed, dup_failed, set_nonblock_failed, Action,
  request, act, fresh, acts,
}
use teapod_tun2socks.Engine.Lifecycle
use teapod_tun2socks.Hook.{EngineHook, new_hook, set_validator}
use teapod_tun2socks.Engine.Instance.{Instance, new_instance}
use teapod_tun2socks.Api.{
  Api, WordSize, to_int, new_api, make_engine, start, ask_stop, stop, set_log, set_log_enabled_of,
  start_unless, log_held, replace, stop_held,
}

pub data Reach {V : Type 0} : Api V → Type 0 where
  unused : Reach new_api
  starts :
      {t : Api V} (word : WordSize) (made : Created) (cache_capacity cache_ttl_seconds : ℤ)
      (validator : Option V)
      → Reach t
      → Reach (start word made cache_capacity cache_ttl_seconds validator t).0
  stops : {t : Api V} → Reach t → Reach (stop t)
  logs : {t : Api V} (enabled : Bool) → Reach t → Reach (set_log_enabled_of enabled t)
  engine_acts :
      {t : Api V} (i : ℕ) (x : Instance V) (a : Action) (l : Life)
      → Reach t
      → get_elem? t.engines i ≡ some x
      → act a x.life ≡ some l
      → Reach (record t { engines = set t.engines i (record x { life = l }) })
  -- the loops and the flows of an engine change its tables and counters
  engine_works :
      {t : Api V} (i : ℕ) (x y : Instance V)
      → Reach t
      → get_elem? t.engines i ≡ some x
      → y.life ≡ x.life
      → Reach (record t { engines = set t.engines i y })

-- Every engine is in a state that its goroutines can reach.
abbrev pub AllReached : {V : Type 0} → List (Instance V) → Type 0
AllReached [] = Unit
AllReached (x ∷ engines) = Lifecycle.Reach x.life × AllReached engines

AllReached-append :
    {V : Type 0} (engines : List (Instance V)) (x : Instance V)
    → AllReached engines
    → Lifecycle.Reach x.life
    → AllReached (engines ++ (x ∷ []))
AllReached-append [] x h r = (r, tt)
AllReached-append (y ∷ engines) x h r = (h.0, AllReached-append engines x h.1 r)

AllReached-set :
    {V : Type 0} (engines : List (Instance V)) (i : ℕ) (x : Instance V)
    → AllReached engines
    → Lifecycle.Reach x.life
    → AllReached (set engines i x)
AllReached-set [] i x h r = tt
AllReached-set (y ∷ engines) zero x h r = (r, h.1)
AllReached-set (y ∷ engines) (suc i) x h r = (h.0, AllReached-set engines i x h.1 r)

pub AllReached-get :
    {V : Type 0} (engines : List (Instance V)) (i : ℕ) (x : Instance V)
    → AllReached engines
    → get_elem? engines i ≡ some x
    → Lifecycle.Reach x.life
AllReached-get [] i x h e = absurd (cc e)
AllReached-get (y ∷ engines) zero x h e = let same : y ≡ x = cc e in rw (← same) h.0
AllReached-get (y ∷ engines) (suc i) x h e = AllReached-get engines i x h.1 e

-- The API holds an engine together with its hook, and only the newest one.
pub record IsConsistent {V : Type 0} (t : Api V) : Type 0 where
  pub agree : t.hook ≡ t.engine
  pub newest : (i : ℕ) → t.engine ≡ some i → suc i ≡ length t.engines
  pub reached : AllReached t.engines

AllReached-replace :
    {V : Type 0} (o : Option (Instance V)) (i : ℕ) (f : Instance V → Instance V)
    (engines : List (Instance V))
    → get_elem? engines i ≡ o
    → ((x : Instance V) → Lifecycle.Reach x.life → Lifecycle.Reach (f x).life)
    → AllReached engines
    → AllReached (replace o i f engines)
AllReached-replace none i f engines e keeps h = h
AllReached-replace (some x) i f engines e keeps h =
    AllReached-set engines i (f x) h (keeps x (AllReached-get engines i x h e))

length-replace :
    {V : Type 0} (o : Option (Instance V)) (i : ℕ) (f : Instance V → Instance V)
    (engines : List (Instance V))
    → length (replace o i f engines) ≡ length engines
length-replace none i f engines = refl
length-replace (some x) i f engines = length-set engines i (f x)

pub ask_stop-Reach :
    {V : Type 0} (x : Instance V) → Lifecycle.Reach x.life → Lifecycle.Reach (ask_stop x).life
unfolding act
ask_stop-Reach x r = acts request r refl

make_engine-IsConsistent :
    {V : Type 0} (made : Created) (hook : EngineHook V) (t : Api V)
    → IsConsistent t
    → IsConsistent (make_engine made hook t).0
unfolding make_engine
make_engine-IsConsistent (created r) hook t v = record {
  agree = refl;
  newest = λ i e.
      let same : length t.engines ≡ i = cc e in
      omega (arith, length-append {0} t.engines (new_instance hook ∷ []));
  reached = AllReached-append t.engines (new_instance hook) v.reached fresh;
}
make_engine-IsConsistent (create_nic_failed r) hook t v = v
make_engine-IsConsistent (dup_failed r) hook t v = v
make_engine-IsConsistent (set_nonblock_failed r) hook t v = v

start_unless-IsConsistent :
    {V : Type 0} (word : WordSize) (o : Option ℕ) (made : Created)
    (cache_capacity cache_ttl_seconds : ℤ) (validator : Option V) (t : Api V)
    → IsConsistent t
    → IsConsistent (start_unless word o made cache_capacity cache_ttl_seconds validator t).0
unfolding start_unless
start_unless-IsConsistent word (some i) made cache_capacity cache_ttl_seconds validator t v = v
start_unless-IsConsistent word none made cache_capacity cache_ttl_seconds validator t v =
    make_engine-IsConsistent made
      (set_validator (new_hook (to_int word cache_capacity) (to_int word cache_ttl_seconds))
        validator)
      t v

stop_held-IsConsistent :
    {V : Type 0} (o : Option ℕ) (t : Api V) → IsConsistent t → IsConsistent (stop_held o t)
unfolding stop_held
stop_held-IsConsistent none t v = record {
  agree = refl;
  newest = λ i e. absurd (cc e);
  reached = v.reached;
}
stop_held-IsConsistent (some i) t v = record {
  agree = refl;
  newest = λ i e. absurd (cc e);
  reached =
      AllReached-replace (get_elem? t.engines i) i ask_stop t.engines refl ask_stop-Reach v.reached;
}

log_held-IsConsistent :
    {V : Type 0} (o : Option ℕ) (enabled : Bool) (t : Api V)
    → IsConsistent t
    → IsConsistent (log_held o enabled t)
unfolding log_held
log_held-IsConsistent none enabled t v = v
log_held-IsConsistent (some i) enabled t v = record {
  agree = v.agree;
  newest = λ j e.
      v.newest j e ∙ sym (length-replace (get_elem? t.engines i) i (set_log enabled) t.engines);
  reached =
      AllReached-replace (get_elem? t.engines i) i (set_log enabled) t.engines refl (λ x r. r)
        v.reached;
}

-- In every order of the calls of the API and of the steps of its engines: the API holds an engine
-- exactly if it holds its hook, and only the engine that it made last; and every engine that it has
-- made, held or forgotten, is in a state that the goroutines of its lifecycle can reach.
pub Reach-IsConsistent : {V : Type 0} {t : Api V} → Reach t → IsConsistent t
unfolding start stop set_log_enabled_of
Reach-IsConsistent unused = record { agree = refl; newest = λ i e. absurd (cc e); reached = tt }
Reach-IsConsistent (starts {t} word made cache_capacity cache_ttl_seconds validator r) =
    start_unless-IsConsistent word t.engine made cache_capacity cache_ttl_seconds validator t
      (Reach-IsConsistent r)
Reach-IsConsistent (stops {t} r) = stop_held-IsConsistent t.engine t (Reach-IsConsistent r)
Reach-IsConsistent (logs {t} enabled r) =
    log_held-IsConsistent t.hook enabled t (Reach-IsConsistent r)
Reach-IsConsistent (engine_acts {t} i x a l r here ran) =
    let v = Reach-IsConsistent r in
    record {
      agree = v.agree;
      newest = λ j e. v.newest j e ∙ sym (length-set t.engines i (record x { life = l }));
      reached =
          AllReached-set t.engines i (record x { life = l }) v.reached
            (acts a (AllReached-get t.engines i x v.reached here) ran);
    }
Reach-IsConsistent (engine_works {t} i x y r here same) =
    let v = Reach-IsConsistent r in
    record {
      agree = v.agree;
      newest = λ j e. v.newest j e ∙ sym (length-set t.engines i y);
      reached =
          AllReached-set t.engines i y v.reached
            (rw same (AllReached-get t.engines i x v.reached here));
    }
