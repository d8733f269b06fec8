-- ===== src/Api/Reports.antt =====
-- What `GetStatsLine` and `GetDiagnostics` report, read back from their texts.
use teapod_tun2socks.Prelude.{
  ℕ, ◌≡◌, refl, sym, ◌∙◌, ℤ, List, [], Option, none, some, get_elem?, get_elem?-within, arith, ◌⊎◌,
  Option-cases, inl, inr, ap, ◌++◌, true,
}
use teapod_tun2socks.Hook.{cache_len}
use teapod_tun2socks.Engine.Instance.{Instance}
use teapod_tun2socks.Engine.Diagnostics.{
  StackStats, Snapshot, Activity, diagnostics, stats_line, take_snapshot,
}
use teapod_tun2socks.Engine.Diagnostics.Line.{words, no_blank, stats_words, words-stats_line}
use teapod_tun2socks.Engine.Diagnostics.Table.{IsSnapshot, take_snapshot-IsSnapshot}
use teapod_tun2socks.Key.{codes}
use teapod_tun2socks.Api.{Api, cache_size, get_stats_line, get_diagnostics, query}
use teapod_tun2socks.Api.Engines.{Reach, Reach-IsConsistent}

-- The engine that the API holds: there is none, or it is the newest of those made.
abbrev pub Holds : {V : Type 0} → Api V → Option (Instance V) → Type 0
Holds t none = t.engine ≡ none
Holds {V = V} t (some x) = (i : ℕ) × (t.engine ≡ some i) × (get_elem? t.engines i ≡ some x)

query_lem :
    {V A : Type 0} (o : Option ℕ) (default : A) (f : Instance V → A) (t : Api V) (i : ℕ)
    (x : Instance V)
    → o ≡ some i
    → get_elem? t.engines i ≡ some x
    → query o default f t ≡ f x
query_lem none default f t i x held here = absurd (cc held)
query_lem (some j) default f t i x held here =
    let same : j ≡ i = cc held in
    let there : get_elem? t.engines j ≡ some x = rw same here in rw (there, query) refl

-- The two queries for an engine that the API holds together with its hook.
get_stats_line-held :
    {V : Type 0} (decimal : ℤ → List ℕ) (megabytes : ℕ → List ℕ) (stats : StackStats) (t : Api V)
    (i : ℕ) (x : Instance V)
    → t.engine ≡ some i
    → t.hook ≡ some i
    → get_elem? t.engines i ≡ some x
    → get_stats_line decimal megabytes stats t
      ≡ stats_line decimal megabytes stats (cache_len x.server.hook) x
unfolding get_stats_line cache_size
get_stats_line-held decimal megabytes stats t i x held hooked here =
    query_lem t.engine [] (λ y. stats_line decimal megabytes stats (cache_size t) y) t i x held here
    ∙ ap (λ n. stats_line decimal megabytes stats n x)
        (query_lem t.hook 0 (λ y. cache_len y.server.hook) t i x hooked here)

get_diagnostics-held :
    {V : Type 0} (marshal : Snapshot → List ℕ ⊎ List ℕ) (quoted : List ℕ → List ℕ)
    (range : List (ℕ × ℕ) → List (ℕ × ℕ)) (tracked : ℕ → Activity) (now : ℤ) (stats : StackStats)
    (t : Api V) (i : ℕ) (x : Instance V)
    → t.engine ≡ some i
    → t.hook ≡ some i
    → get_elem? t.engines i ≡ some x
    → get_diagnostics marshal quoted range tracked now stats t
      ≡ diagnostics marshal quoted range tracked now stats (cache_len x.server.hook) x
unfolding get_diagnostics cache_size
get_diagnostics-held marshal quoted range tracked now stats t i x held hooked here =
    query_lem t.engine [] (λ y. diagnostics marshal quoted range tracked now stats (cache_size t) y)
      t i x held here
    ∙ ap (λ n. diagnostics marshal quoted range tracked now stats n x)
        (query_lem t.hook 0 (λ y. cache_len y.server.hook) t i x hooked here)

-- The text of a snapshot: its JSON, or the error that `json.Marshal` gives.
abbrev pub Prints : (Snapshot → List ℕ ⊎ List ℕ) → (List ℕ → List ℕ) → Snapshot → List ℕ → Type 0
Prints marshal quoted s text =
    (marshal s ≡ inr text)
    ⊎ ((err : List ℕ) × (marshal s ≡ inl err)
        × (text ≡ codes "{\"error\":" ++ (quoted err ++ codes "}")))

diagnostics-Prints :
    {V : Type 0} (marshal : Snapshot → List ℕ ⊎ List ℕ) (quoted : List ℕ → List ℕ)
    (range : List (ℕ × ℕ) → List (ℕ × ℕ)) (tracked : ℕ → Activity) (now : ℤ) (stats : StackStats)
    (entries : ℕ) (x : Instance V) (m : List ℕ ⊎ List ℕ)
    → marshal (take_snapshot range tracked now stats entries x) ≡ m
    → Prints marshal quoted
        (take_snapshot range tracked now stats entries x)
        (diagnostics marshal quoted range tracked now stats entries x)
unfolding diagnostics
diagnostics-Prints marshal quoted range tracked now stats entries x (inl err) h =
    inr (err, h, rw (diagnostics, h) refl)
diagnostics-Prints marshal quoted range tracked now stats entries x (inr b) h =
    let same : diagnostics marshal quoted range tracked now stats entries x ≡ b =
      rw (diagnostics, h) refl in
    inl (h ∙ ap inr (sym same))

module _ (decimal : ℤ → List ℕ) (megabytes : ℕ → List ℕ) (marshal : Snapshot → List ℕ ⊎ List ℕ)
    (quoted : List ℕ → List ℕ) (range : List (ℕ × ℕ) → List (ℕ × ℕ)) (tracked : ℕ → Activity)
    (now : ℤ) (stats : StackStats) where
  -- The two texts for the engine that the API holds.
  abbrev pub Reports : {V : Type 0} → Option (Instance V) → List ℕ → List ℕ → Type 0
  Reports none line text = (line ≡ []) × (text ≡ [])
  Reports (some x) line text =
      (words line ≡ stats_words decimal megabytes stats (cache_len x.server.hook) x)
      × ((s : Snapshot) × IsSnapshot range tracked now stats (cache_len x.server.hook) x s
          × Prints marshal quoted s text)

  -- In every state that the API can reach, and if the texts of numbers have no blank: the API holds
  -- no engine, and `GetStatsLine` and `GetDiagnostics` return the empty text; or it holds an engine
  -- that it has made. Then the line of `GetStatsLine`, split at its blanks, is exactly the eleven
  -- names in their order, each with the value of that engine, its stack or the cache of its own
  -- hook; and the text of `GetDiagnostics` is the JSON, or the error of the marshaller, for a
  -- snapshot whose fields are those of that engine, its stack and the cache of its own hook, with a
  -- row for each of the first 200 TCP flows that are visited.
  pub Reach-Reports :
      {V : Type 0} {t : Api V}
      → Reach t
      → ((z : ℤ) → no_blank (decimal z) ≡ true)
      → ((n : ℕ) → no_blank (megabytes n) ≡ true)
      → (held : Option (Instance V)) × Holds t held
        × Reports held
            (get_stats_line decimal megabytes stats t)
            (get_diagnostics marshal quoted range tracked now stats t)
  unfolding get_stats_line get_diagnostics cache_size
  Reach-Reports {t = t} r hd hm =
      let v = Reach-IsConsistent r in
      elim (Option-cases t.engine) [
        | inl held_none ↦ (none, held_none, (rw (held_none) refl, rw (held_none) refl))
        | inr (i, held_some) ↦
            let hooked : t.hook ≡ some i = v.agree ∙ held_some in
            let (x, here) =
              get_elem?-within t.engines i (let last = v.newest i held_some in omega arith) in
            let n = cache_len x.server.hook in
            let line = get_stats_line-held decimal megabytes stats t i x held_some hooked here in
            let text =
              get_diagnostics-held marshal quoted range tracked now stats t i x held_some hooked
                here in
            (
              some x,
              (i, held_some, here),
              (
                ap words line ∙ words-stats_line decimal megabytes stats n x hd hm,
                (
                  take_snapshot range tracked now stats n x,
                  take_snapshot-IsSnapshot range tracked now stats n x,
                  rw (text) (diagnostics-Prints marshal quoted range tracked now stats n x _ refl),
                ),
              ),
            )
      ]
