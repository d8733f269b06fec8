-- ===== src/Api.antt =====
-- go/teapod_tun2socks.go, `TeapodTun2socks`: the engines behind the API. Each method holds the
-- mutex while it reads or writes the fields, so that part is one step. Pointers are positions in
-- the list of the engines that have been made.
pub mod Engines
pub mod Forgotten
pub mod Reports
use teapod_tun2socks.Engine.Diagnostics.{StackStats, Snapshot, Activity, diagnostics, stats_line}
use teapod_tun2socks.Prelude.{
  ℕ, suc, ◌+◌, ℤ, pos, List, [], ◌∷◌, ◌++◌, length, get_elem?, set, Bool, true, false, Option, none,
  some, wrap_i64, wrap_i32, ◌⊎◌,
}
use teapod_tun2socks.Hook.{EngineHook, new_hook, set_validator, set_log_enabled, cache_len}
use teapod_tun2socks.Engine.Instance.{Instance, new_instance}
use teapod_tun2socks.Engine.Lifecycle.{
  Life, new_life, Created, created, create_nic_failed, dup_failed, set_nonblock_failed,
}
use teapod_tun2socks.Engine.Forward.{Server, active_conns_of}
use teapod_tun2socks.Engine.Forward.Table.{close_all_connections}

-- `engine` and `hook`; the hook is the one of the engine at that position. `NewTeapodTun2socks` has
-- neither.
pub record Api (V : Type 0) : Type 0 where
  pub engines : List (Instance V)
  pub engine : Option ℕ
  pub hook : Option ℕ

abbrev pub new_api : {V : Type 0} → Api V
new_api = record { engines = []; engine = none; hook = none }

pub data StartResult : Type 0 where
  success already_started : StartResult
  creation_failed : Created → StartResult

-- The size of `int`: 32 bits on armeabi-v7a, 64 bits on arm64-v8a and x86_64.
pub data WordSize : Type 0 where
  bits32 bits64 : WordSize

-- `int(z)` of an `int64`
unfoldable pub to_int : WordSize → ℤ → ℤ
unfolding wrap_i32
to_int bits32 z = wrap_i32 z
to_int bits64 z = z

-- What `NewEngine` returns, and the API with it. The goroutine that `Start` starts is at the
-- beginning of `Engine.Start`.
unfoldable pub make_engine : {V : Type 0} → Created → EngineHook V → Api V → Api V × StartResult
make_engine (created r) hook t = (
  record {
    engines = t.engines ++ (new_instance hook ∷ []);
    engine = some (length t.engines);
    hook = some (length t.engines);
  },
  success,
)
make_engine (create_nic_failed r) hook t = (t, creation_failed (create_nic_failed r))
make_engine (dup_failed r) hook t = (t, creation_failed (dup_failed r))
make_engine (set_nonblock_failed r) hook t = (t, creation_failed (set_nonblock_failed r))

-- `Start`, for the engine that the API holds
unfoldable pub start_unless :
    {V : Type 0} → WordSize → Option ℕ → Created → ℤ → ℤ → Option V → Api V → Api V × StartResult
unfolding make_engine to_int
start_unless word (some i) made cache_capacity cache_ttl_seconds validator t = (t, already_started)
start_unless word none made cache_capacity cache_ttl_seconds validator t =
    make_engine made
      (set_validator (new_hook (to_int word cache_capacity) (to_int word cache_ttl_seconds))
        validator)
      t

unfoldable pub start :
    {V : Type 0} → WordSize → Created → ℤ → ℤ → Option V → Api V → Api V × StartResult
unfolding start_unless
start word made cache_capacity cache_ttl_seconds validator t =
    start_unless word t.engine made cache_capacity cache_ttl_seconds validator t

-- A change of the engine at a position.
abbrev pub replace :
    {V : Type 0}
    → Option (Instance V)
    → ℕ
    → (Instance V → Instance V)
    → List (Instance V)
    → List (Instance V)
replace none i f engines = engines
replace (some x) i f engines = set engines i (f x)

abbrev pub update :
    {V : Type 0} → ℕ → (Instance V → Instance V) → List (Instance V) → List (Instance V)
update i f engines = replace (get_elem? engines i) i f engines

-- The call of `Engine.Stop`, which runs without the mutex.
abbrev pub ask_stop : {V : Type 0} → Instance V → Instance V
ask_stop x = record x { life = record x.life { stop_calls = x.life.stop_calls + 1 } }

-- `Stop`, for the engine that the API holds
unfoldable pub stop_held : {V : Type 0} → Option ℕ → Api V → Api V
stop_held none t = record t { engine = none; hook = none }
stop_held (some i) t = record { engines = update i ask_stop t.engines; engine = none; hook = none }

unfoldable pub stop : {V : Type 0} → Api V → Api V
unfolding stop_held
stop t = stop_held t.engine t

-- What a method that only reads returns: its value for no engine, or that of the engine.
abbrev pub query : {V A : Type 0} → Option ℕ → A → (Instance V → A) → Api V → A
query none default f t = default
query (some i) default f t = elim (get_elem? t.engines i) [ none ↦ default | some x ↦ f x ]

-- `IsRunning`, `CacheSize`, `GetActiveConnections`, `GetUploadBytes`, `GetDownloadBytes`,
-- `GetLastRxActivityMs`
unfoldable pub is_running : {V : Type 0} → Api V → Bool
is_running t = query t.engine false (λ x. x.life.running) t

unfoldable pub cache_size : {V : Type 0} → Api V → ℕ
cache_size t = query t.hook 0 (λ x. cache_len x.server.hook) t

unfoldable pub get_active_connections : {V : Type 0} → Api V → ℤ
get_active_connections t = query t.engine (pos 0) (λ x. active_conns_of x.server) t

unfoldable pub get_upload_bytes : {V : Type 0} → Api V → ℤ
get_upload_bytes t = query t.engine (pos 0) (λ x. wrap_i64 (pos x.tx_bytes)) t

unfoldable pub get_download_bytes : {V : Type 0} → Api V → ℤ
get_download_bytes t = query t.engine (pos 0) (λ x. wrap_i64 (pos x.rx_bytes)) t

unfoldable pub get_last_rx_activity_ms : {V : Type 0} → Api V → ℤ
get_last_rx_activity_ms t = query t.engine (pos 0) (λ x. x.last_rx_ms) t

-- `ForceCloseAllConnections`: the closed connections, and the number that it returns
unfoldable pub force_close_all_connections :
    {V : Type 0} → (List (ℕ × ℕ) → List (ℕ × ℕ)) → Api V → List ℕ × ℕ
force_close_all_connections range t =
    query t.engine ([], 0) (λ x. close_all_connections range x.server.conns x.server.udp_conns) t

-- `SetLogEnabled`
abbrev pub set_log : {V : Type 0} → Bool → Instance V → Instance V
set_log enabled x = record x {
  server = record x.server { hook = set_log_enabled x.server.hook enabled };
}

unfoldable pub log_held : {V : Type 0} → Option ℕ → Bool → Api V → Api V
log_held none enabled t = t
log_held (some i) enabled t = record t { engines = update i (set_log enabled) t.engines }

unfoldable pub set_log_enabled_of : {V : Type 0} → Bool → Api V → Api V
unfolding log_held
set_log_enabled_of enabled t = log_held t.hook enabled t

-- `GetStatsLine` and `GetDiagnostics`; the empty text if there is no engine
unfoldable pub get_stats_line :
    {V : Type 0} → (ℤ → List ℕ) → (ℕ → List ℕ) → StackStats → Api V → List ℕ
unfolding cache_size
get_stats_line decimal megabytes stats t =
    let cache_entries = cache_size t in
    query t.engine [] (λ x. stats_line decimal megabytes stats cache_entries x) t

unfoldable pub get_diagnostics :
    {V : Type 0}
    → (Snapshot → List ℕ ⊎ List ℕ)
    → (List ℕ → List ℕ)
    → (List (ℕ × ℕ) → List (ℕ × ℕ))
    → (ℕ → Activity)
    → ℤ
    → StackStats
    → Api V
    → List ℕ
unfolding cache_size
get_diagnostics marshal quoted range tracked now stats t =
    let cache_entries = cache_size t in
    query t.engine [] (λ x. diagnostics marshal quoted range tracked now stats cache_entries x) t
