-- ===== src/Engine/Flows.antt =====
-- go/engine.go: all flows of an engine, TCP and UDP, over the server that they share.
pub mod Tcp
pub mod Udp
pub mod Closing
use teapod_tun2socks.Prelude.{ℕ, suc, ◌+◌, ◌≡◌, ℤ, List, [], Bool, true, false, some}
use teapod_tun2socks.Hook.{EngineHook}
use teapod_tun2socks.Socks.Datagram.RoundTrip.{IsAddress}
use teapod_tun2socks.Engine.Pipe.{Flow}
use teapod_tun2socks.Engine.Relay.{Config}
use teapod_tun2socks.Engine.Forward.{Server, new_server, reserve_slot, release_slot}
use teapod_tun2socks.Engine.Sessions.{Session, Sessions, begin_session, Move, move_session}
use teapod_tun2socks.Engine.Sessions.Table.{Changed}
use teapod_tun2socks.Engine.UdpSessions.{UdpFlow, UdpSessions, begin_relay, UdpMove, move_udp}

-- The server with its TCP flows and its UDP flows; `holding` and `over` as for the UDP flows alone.
pub record Flows (V : Type 0) : Type 0 where
  pub server : Server V
  pub tcp : List (Session Flow)
  pub udp : List (Session UdpFlow)
  pub holding : ℕ
  pub over : Bool

abbrev pub tcp_part : {V : Type 0} → Flows V → Sessions V
tcp_part f = record { server = f.server; sessions = f.tcp }

abbrev pub udp_part : {V : Type 0} → Flows V → UdpSessions V
udp_part f = record { server = f.server; sessions = f.udp; holding = f.holding; over = f.over }

abbrev pub set_tcp : {V : Type 0} → Flows V → Sessions V → Flows V
set_tcp f s = record f { server = s.server; tcp = s.sessions }

abbrev pub set_udp : {V : Type 0} → Flows V → UdpSessions V → Flows V
set_udp f s = record {
  server = s.server;
  tcp = f.tcp;
  udp = s.sessions;
  holding = s.holding;
  over = s.over;
}

-- The states that are reached when `n` numbers have been given. What the other goroutines do leaves
-- the tables, the numbers and the counts alone.
pub data Reach {V : Type 0} (hook : EngineHook V) : ℕ → Flows V → Type 0 where
  booted :
      Reach hook 0
        (record { server = new_server hook; tcp = []; udp = []; holding = 0; over = false })
  tcp_begins :
      {n : ℕ} {f : Flows V} (app : ℕ) (now : ℤ)
      → Reach hook n f
      → Reach hook (suc n) (set_tcp f (begin_session app now (tcp_part f)))
  tcp_moves :
      {n : ℕ} {f : Flows V} (m : Move) (x y : Session Flow) (e : Server V) (l : List (Session Flow))
      → Reach hook n f
      → Changed x y f.tcp l
      → move_session m x.phase x f.server ≡ some (y, e)
      → Reach hook n (record f { server = e; tcp = l })
  udp_admits :
      {n : ℕ} {f : Flows V}
      → Reach hook n f
      → f.over ≡ false
      → (reserve_slot f.server).1 ≡ true
      → Reach hook n (record f { server = (reserve_slot f.server).0; holding = f.holding + 1 })
  udp_exceeds :
      {n : ℕ} {f : Flows V}
      → Reach hook n f
      → f.over ≡ false
      → (reserve_slot f.server).1 ≡ false
      → Reach hook n (record f { server = (reserve_slot f.server).0; over = true })
  udp_backs_off :
      {n : ℕ} {f : Flows V}
      → Reach hook n f
      → f.over ≡ true
      → Reach hook n (record f { server = release_slot f.server; over = false })
  udp_gives_up :
      {n : ℕ} {f : Flows V} (k : ℕ)
      → Reach hook n f
      → f.holding ≡ suc k
      → Reach hook n (record f { server = release_slot f.server; holding = k })
  udp_begins :
      {n : ℕ} {f : Flows V} (app : ℕ) (c : Config) (k : ℕ)
      → Reach hook n f
      → IsAddress c.dst_ip
      → f.holding ≡ suc k
      → Reach hook (suc n) (set_udp f (begin_relay app c k (udp_part f)))
  udp_moves :
      {n : ℕ} {f : Flows V} (m : UdpMove) (x y : Session UdpFlow) (e : Server V)
      (l : List (Session UdpFlow))
      → Reach hook n f
      → Changed x y f.udp l
      → move_udp m x.phase x f.server ≡ some (y, e)
      → Reach hook n (record f { server = e; udp = l })
  elsewhere :
      {n : ℕ} {f : Flows V} (e : Server V)
      → Reach hook n f
      → e.conns ≡ f.server.conns
      → e.udp_conns ≡ f.server.udp_conns
      → e.conns_seq ≡ f.server.conns_seq
      → e.active_conns ≡ f.server.active_conns
      → e.active_udp_conns ≡ f.server.active_udp_conns
      → Reach hook n (record f { server = e })
