-- ===== src/Engine/Diagnostics/Table.antt =====
-- The table of connections in `Diagnostics`.
use mathlib.Core.List.{Perm, append_assoc, append-nil}
use mathlib.Core.List.Perm
use Prim.Native.Nat.{min}
use teapod_tun2socks.Prelude.{
  ℕ, zero, suc, ◌+◌, ◌≤◌, ◌≡◌, refl, sym, ap, ◌∙◌, ℤ, List, [], ◌∷◌, ◌++◌, map, length,
  length-append, length-map, length-take, take, take_of_length-le, leb, true, false, arith,
}
use teapod_tun2socks.Engine.Forward.Closing.{length-Perm}
use teapod_tun2socks.Engine.Instance.{Instance}
use teapod_tun2socks.Engine.Diagnostics.{
  Activity, ConnDiag, StackStats, conn_diag, collect_rows, take_snapshot, Snapshot, seconds_since,
}

-- The loop takes rows until there are 200.
collect_rows_lem :
    (now : ℤ) (room : ℕ) (conns : List ConnDiag) (rest : List Activity)
    → length conns + room ≡ 200
    → collect_rows now conns rest ≡ conns ++ take room (map (conn_diag now) rest)
unfolding collect_rows
collect_rows_lem now zero conns [] h = sym (append-nil conns)
collect_rows_lem now (suc room) conns [] h = sym (append-nil conns)
collect_rows_lem now zero conns (tc ∷ rest) h =
    let full : leb 200 (length conns) ≡ true = ground arith in
    rw (full, collect_rows) (sym (append-nil conns))
collect_rows_lem now (suc room) conns (tc ∷ rest) h =
    let free : leb 200 (length conns) ≡ false = ground arith in
    let longer = length-append conns (conn_diag now tc ∷ []) in
    rw (free, collect_rows)
      (collect_rows_lem now room (conns ++ (conn_diag now tc ∷ [])) rest (omega arith)
        ∙ append_assoc conns (conn_diag now tc ∷ []) (take room (map (conn_diag now) rest)))

-- The row of a connection that is tracked under a number.
abbrev pub row : (ℕ → Activity) → ℤ → ℕ × ℕ → ConnDiag
row tracked now entry = conn_diag now (tracked entry.1)

map-map :
    (tracked : ℕ → Activity) (now : ℤ) (entries : List (ℕ × ℕ))
    → map (conn_diag now) (map (λ entry. tracked entry.1) entries) ≡ map (row tracked now) entries
map-map tracked now [] = refl
map-map tracked now (entry ∷ rest) = ap (row tracked now entry ∷◌) (map-map tracked now rest)

rows_lem :
    (tracked : ℕ → Activity) (now : ℤ) (entries : List (ℕ × ℕ))
    → collect_rows now [] (map (λ entry. tracked entry.1) entries)
      ≡ take 200 (map (row tracked now) entries)
rows_lem tracked now entries =
    collect_rows_lem now 200 [] (map (λ entry. tracked entry.1) entries) refl
    ∙ ap (take 200) (map-map tracked now entries)

-- What a snapshot shows of an engine: the counters and flows of its fields, the counts of the stack,
-- and a row for each of the first 200 connections that are visited.
pub record IsSnapshot {V : Type 0} (range : List (ℕ × ℕ) → List (ℕ × ℕ)) (tracked : ℕ → Activity)
    (now : ℤ) (stats : StackStats) (cache_len : ℕ) (e : Instance V) (s : Snapshot) : Type 0 where
  pub flows : (s.tcp_conns ≡ e.server.active_conns) × (s.udp_conns ≡ e.server.active_udp_conns)
  pub of_stack : (s.gvisor_estab ≡ stats.current_established) × (s.chan_queued ≡ stats.num_queued)
  pub traffic : (s.tx_bytes ≡ e.tx_bytes) × (s.rx_bytes ≡ e.rx_bytes)
  pub last_received : s.last_rx_sec ≡ seconds_since now e.last_rx_ms
  pub decisions : s.cache_len ≡ cache_len
  pub failures :
      (s.dial_fails ≡ e.server.socks_dial_fails)
      × (s.quic_rejects ≡ e.quic_rejects)
      × (s.zombie_kills ≡ e.zombie_kills)
  pub rows : s.conns ≡ take 200 (map (row tracked now) (range e.server.conns))

pub take_snapshot-IsSnapshot :
    {V : Type 0} (range : List (ℕ × ℕ) → List (ℕ × ℕ)) (tracked : ℕ → Activity) (now : ℤ)
    (stats : StackStats) (cache_len : ℕ) (e : Instance V)
    → IsSnapshot range tracked now stats cache_len e
        (take_snapshot range tracked now stats cache_len e)
unfolding take_snapshot
take_snapshot-IsSnapshot range tracked now stats cache_len e = record {
  flows = (refl, refl);
  of_stack = (refl, refl);
  traffic = (refl, refl);
  last_received = refl;
  decisions = refl;
  failures = (refl, refl, refl);
  rows = rows_lem tracked now (range e.server.conns);
}

-- If `range` visits each entry of a map once, in any order: the table of `Diagnostics` has the rows
-- of the first 200 connections that it visits, so their number is that of the tracked connections,
-- but at most 200; and with at most 200 of them it has the row of each, once.
pub take_snapshot-rows :
    {V : Type 0} (range : List (ℕ × ℕ) → List (ℕ × ℕ)) (tracked : ℕ → Activity) (now : ℤ)
    (stats : StackStats) (cache_len : ℕ) (e : Instance V)
    → ((m : List (ℕ × ℕ)) → Perm (range m) m)
    → ((take_snapshot range tracked now stats cache_len e).conns
        ≡ take 200 (map (row tracked now) (range e.server.conns)))
      × (length (take_snapshot range tracked now stats cache_len e).conns
          ≡ min 200 (length e.server.conns))
      × (length e.server.conns ≤ 200
          → Perm
              (take_snapshot range tracked now stats cache_len e).conns
              (map (row tracked now) e.server.conns))
unfolding take_snapshot
take_snapshot-rows range tracked now stats cache_len e visits =
    let entries = e.server.conns in
    let first = rows_lem tracked now (range entries) in
    let same_length = length-Perm (range entries) entries (visits entries) in
    let rows = map (row tracked now) (range entries) in
    let count : length rows ≡ length entries =
      length-map {0, 0} (range entries) (row tracked now) ∙ same_length in
    (
      first,
      ap length first ∙ (length-take 200 rows ∙ omega arith),
      λ few.
          rw (first, take_of_length-le 200 rows (omega arith))
            (Perm.map (row tracked now) (visits entries)),
    )
