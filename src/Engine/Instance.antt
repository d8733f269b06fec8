-- ===== src/Engine/Instance.antt =====
-- go/engine.go, `Engine`: the fields that the loops, the forwarders and the API share, but for those
-- of the network stack.
use teapod_tun2socks.Prelude.{ℕ, ℤ, pos}
use teapod_tun2socks.Hook.{EngineHook}
use teapod_tun2socks.Engine.Lifecycle.{Life, new_life}
use teapod_tun2socks.Engine.Forward.{Server, new_server}

-- `Engine`: its life, what the forwarders use, and the counters of the loops
-- and of the pipes
pub record Instance (V : Type 0) : Type 0 where
  pub life : Life
  pub server : Server V
  pub tx_bytes : ℕ
  pub rx_bytes : ℕ
  pub last_rx_ms : ℤ
  pub quic_rejects : ℕ
  pub zombie_kills : ℕ

-- The engine that `NewEngine` returns.
abbrev pub new_instance : {V : Type 0} → EngineHook V → Instance V
new_instance hook = record {
  life = new_life;
  server = new_server hook;
  tx_bytes = 0;
  rx_bytes = 0;
  last_rx_ms = pos 0;
  quic_rejects = 0;
  zombie_kills = 0;
}
