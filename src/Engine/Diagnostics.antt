-- ===== src/Engine/Diagnostics.antt =====
-- go/engine.go, `StatsLine` and `Diagnostics`. What the gVisor stack counts is a record; the text of
-- a number by `%d`, that of a number of megabytes by `%.1f`, `json.Marshal` and `%q` are parameters.
pub mod Line
pub mod Table
pub mod Verdict
use teapod_tun2socks.Prelude.{
  ℕ, ℤ, pos, List, [], ◌∷◌, ◌++◌, map, length, leb, if◌then◌else◌, ◌-ℤ◌, wrap_i64, quot, ◌⊎◌, inl,
  inr,
}
use teapod_tun2socks.Key.{codes}
use teapod_tun2socks.Engine.Forward.{Server}
use teapod_tun2socks.Engine.Instance.{Instance}

-- The fields of a `trackedConn` that `Diagnostics` reads.
pub record Activity : Type 0 where
  pub dst : List ℕ
  pub created_ms : ℤ
  pub last_tx_ms : ℤ
  pub last_rx_ms : ℤ

-- `e.stack.Stats().TCP` and `e.endpoint.NumQueued()`
pub record StackStats : Type 0 where
  pub current_established : ℕ
  pub current_connected : ℕ
  pub num_queued : ℕ

-- `channelSize`
abbrev pub channel_size : ℕ
channel_size = 4096

-- `connDiag`
pub record ConnDiag : Type 0 where
  pub dst : List ℕ
  pub age_sec : ℤ
  pub tx_idle_sec : ℤ
  pub rx_idle_sec : ℤ

-- `(now - t) / 1000`
unfoldable pub seconds_since : ℤ → ℤ → ℤ
unfolding wrap_i64
seconds_since now t = quot (wrap_i64 (now -ℤ t)) 1000

abbrev pub conn_diag : ℤ → Activity → ConnDiag
conn_diag now tc = record {
  dst = tc.dst;
  age_sec = seconds_since now tc.created_ms;
  tx_idle_sec = seconds_since now tc.last_tx_ms;
  rx_idle_sec = seconds_since now tc.last_rx_ms;
}

-- The loop over `e.conns`, with the rows so far.
unfoldable pub collect_rows : ℤ → List ConnDiag → List Activity → List ConnDiag
collect_rows now conns [] = conns
collect_rows now conns (tc ∷ rest) =
    let more = collect_rows now (conns ++ (conn_diag now tc ∷ [])) rest in
    if leb 200 (length conns) then conns else more

-- `snapshot`
pub record Snapshot : Type 0 where
  pub tcp_conns : ℤ
  pub udp_conns : ℤ
  pub gvisor_estab : ℕ
  pub chan_queued : ℕ
  pub tx_bytes : ℕ
  pub rx_bytes : ℕ
  pub last_rx_sec : ℤ
  pub cache_len : ℕ
  pub dial_fails : ℕ
  pub quic_rejects : ℕ
  pub zombie_kills : ℕ
  pub conns : List ConnDiag

-- The snapshot of an engine at a time. `tracked` gives the `trackedConn` of a handle, and `range`
-- the order in which Go visits the map, which Go leaves open.
unfoldable pub take_snapshot :
    {V : Type 0}
    → (List (ℕ × ℕ) → List (ℕ × ℕ))
    → (ℕ → Activity)
    → ℤ
    → StackStats
    → ℕ
    → Instance V
    → Snapshot
unfolding collect_rows seconds_since
take_snapshot range tracked now stats cache_len e = record {
  tcp_conns = e.server.active_conns;
  udp_conns = e.server.active_udp_conns;
  gvisor_estab = stats.current_established;
  chan_queued = stats.num_queued;
  tx_bytes = e.tx_bytes;
  rx_bytes = e.rx_bytes;
  last_rx_sec = seconds_since now e.last_rx_ms;
  cache_len = cache_len;
  dial_fails = e.server.socks_dial_fails;
  quic_rejects = e.quic_rejects;
  zombie_kills = e.zombie_kills;
  conns = collect_rows now [] (map (λ entry. tracked entry.1) (range e.server.conns));
}

-- `Diagnostics`: `marshal` gives the error's text, or the JSON text.
unfoldable pub diagnostics :
    {V : Type 0}
    → (Snapshot → List ℕ ⊎ List ℕ)
    → (List ℕ → List ℕ)
    → (List (ℕ × ℕ) → List (ℕ × ℕ))
    → (ℕ → Activity)
    → ℤ
    → StackStats
    → ℕ
    → Instance V
    → List ℕ
unfolding take_snapshot
diagnostics marshal quoted range tracked now stats cache_len e =
    elim (marshal (take_snapshot range tracked now stats cache_len e)) [
      | inl err ↦ codes "{\"error\":" ++ (quoted err ++ codes "}")
      | inr b ↦ b
    ]

-- `StatsLine`
unfoldable pub stats_line :
    {V : Type 0} → (ℤ → List ℕ) → (ℕ → List ℕ) → StackStats → ℕ → Instance V → List ℕ
stats_line decimal megabytes stats cache_len e =
    codes "tcpConns="
    ++ (decimal e.server.active_conns
        ++ (codes " udpConns="
            ++ (decimal e.server.active_udp_conns
                ++ (codes " gvisorEstab="
                    ++ (decimal (pos stats.current_established)
                        ++ (codes " gvisorConn="
                            ++ (decimal (pos stats.current_connected)
                                ++ (codes " chanQueued="
                                    ++ (decimal (pos stats.num_queued)
                                        ++ (codes "/"
                                            ++ (decimal (pos channel_size)
                                                ++ (codes " txMB="
                                                    ++ (megabytes e.tx_bytes
                                                        ++ (codes " rxMB="
                                                            ++ (megabytes e.rx_bytes
                                                            ++ (codes " cacheEntries="
                                                            ++ (decimal (pos cache_len)
                                                            ++ (codes " dialFails="
                                                            ++ (decimal
                                                            (pos e.server.socks_dial_fails)
                                                            ++ (codes " quicRej="
                                                            ++ (decimal (pos e.quic_rejects)
                                                            ++ (codes " zombies="
                                                            ++ decimal (
                                                            pos
                                                            e.zombie_kills)))))))))))))))))))))))
