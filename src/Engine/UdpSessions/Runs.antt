-- ===== src/Engine/UdpSessions/Runs.antt =====
-- Every interleaving of the UDP flows, and what a move of one of them does.
use teapod_tun2socks.Engine.Sessions.Runs.{Ensures-if}
use teapod_tun2socks.Engine.Relay.Closing.{IsSettled}
use teapod_tun2socks.Prelude.{ℕ, suc, ◌+◌, ◌≡◌, List, [], true, false, Option, none, some}
use teapod_tun2socks.Hook.{EngineHook}
use teapod_tun2socks.Socks.Datagram.RoundTrip.{IsAddress}
use teapod_tun2socks.Engine.Pipe.Runs.{Ensures}
use teapod_tun2socks.Engine.Relay.{Config, Udp}
use teapod_tun2socks.Engine.Forward.{
  Server, track_tcp, untrack_udp, reserve_slot, release_slot, new_server,
}
use teapod_tun2socks.Engine.Sessions.{piping, untracked, gone, Session, Phase}
use teapod_tun2socks.Engine.Sessions.Table.{Changed}
use teapod_tun2socks.Engine.UdpSessions.Steps.{IsReached, relay_step-IsReached, relay_step-returned}
use teapod_tun2socks.Engine.UdpSessions.{
  UdpFlow, relay_step, UdpSessions, begin_relay, UdpMove, move_udp, relays, drops, releases,
  with_relay,
}

-- The states that are reached when `n` numbers have been given. gVisor gives addresses of four or
-- sixteen bytes. TCP flows take numbers, too; what the other goroutines do leaves the connections,
-- the numbers and the count alone.
pub data Reach {V : Type 0} (hook : EngineHook V) : ℕ → UdpSessions V → Type 0 where
  booted :
      Reach hook 0 (record { server = new_server hook; sessions = []; holding = 0; over = false })
  admits :
      {n : ℕ} {s : UdpSessions V}
      → Reach hook n s
      → s.over ≡ false
      → (reserve_slot s.server).1 ≡ true
      → Reach hook n (record s { server = (reserve_slot s.server).0; holding = s.holding + 1 })
  exceeds :
      {n : ℕ} {s : UdpSessions V}
      → Reach hook n s
      → s.over ≡ false
      → (reserve_slot s.server).1 ≡ false
      → Reach hook n (record s { server = (reserve_slot s.server).0; over = true })
  backs_off :
      {n : ℕ} {s : UdpSessions V}
      → Reach hook n s
      → s.over ≡ true
      → Reach hook n (record s { server = release_slot s.server; over = false })
  gives_up :
      {n : ℕ} {s : UdpSessions V} (k : ℕ)
      → Reach hook n s
      → s.holding ≡ suc k
      → Reach hook n (record s { server = release_slot s.server; holding = k })
  begins :
      {n : ℕ} {s : UdpSessions V} (app : ℕ) (c : Config) (k : ℕ)
      → Reach hook n s
      → IsAddress c.dst_ip
      → s.holding ≡ suc k
      → Reach hook (suc n) (begin_relay app c k s)
  moves :
      {n : ℕ} {s : UdpSessions V} (m : UdpMove) (x y : Session UdpFlow) (e : Server V)
      (l : List (Session UdpFlow))
      → Reach hook n s
      → Changed x y s.sessions l
      → move_udp m x.phase x s.server ≡ some (y, e)
      → Reach hook n (record s { server = e; sessions = l })
  tcp_begins :
      {n : ℕ} {s : UdpSessions V} (app : ℕ)
      → Reach hook n s
      → Reach hook (suc n) (record s { server = track_tcp app s.server })
  elsewhere :
      {n : ℕ} {s : UdpSessions V} (e : Server V)
      → Reach hook n s
      → e.udp_conns ≡ s.server.udp_conns
      → e.conns_seq ≡ s.server.conns_seq
      → e.active_udp_conns ≡ s.server.active_udp_conns
      → Reach hook n (record s { server = e })

-- What a move makes of a flow and of the server.
pub data Moved {V : Type 0} (x : Session UdpFlow) (e : Server V)
    : Session UdpFlow → Server V → Type 0 where
  relayed :
      (f : Udp)
      → (IsReached x.flow.config x.flow.relay → IsReached x.flow.config f)
      → (IsSettled x.flow.relay → x.flow.relay.returned ≡ true → f.returned ≡ true)
      → Moved x e (record x { flow = record x.flow { relay = f } }) e
  dropped :
      x.phase ≡ piping
      → x.flow.relay.returned ≡ true
      → Moved x e (record x { phase = untracked }) (untrack_udp x.id e)
  released : x.phase ≡ untracked → Moved x e (record x { phase = gone }) (release_slot e)

abbrev pub IsMove : {V : Type 0} → Session UdpFlow → Server V → Session UdpFlow × Server V → Type 0
IsMove x e r = Moved x e r.0 r.1

with_relay-IsMove :
    {V : Type 0} (x : Session UdpFlow) (e : Server V) (o : Option Udp)
    → (IsReached x.flow.config x.flow.relay → Ensures o (IsReached x.flow.config))
    → (IsSettled x.flow.relay → x.flow.relay.returned ≡ true → Ensures o (λ g. g.returned ≡ true))
    → Ensures (with_relay o x e) (IsMove x e)
with_relay-IsMove x e none h k = tt
with_relay-IsMove x e (some f) h k = relayed f h k

pub move_udp-IsMove :
    {V : Type 0} (m : UdpMove) (phase : Phase) (x : Session UdpFlow) (e : Server V)
    → x.phase ≡ phase
    → Ensures (move_udp m phase x e) (IsMove x e)
unfolding move_udp
move_udp-IsMove (relays m) phase x e h =
    with_relay-IsMove x e (relay_step x.flow.config m x.flow.relay)
      (relay_step-IsReached x.flow.config m x.flow.relay)
      (relay_step-returned x.flow.config m x.flow.relay)
move_udp-IsMove drops piping x e h =
    Ensures-if (IsMove x e) x.flow.relay.returned
      (some (record x { phase = untracked }, untrack_udp x.id e)) none (dropped h) (λ runs. tt)
move_udp-IsMove releases untracked x e h = released h
move_udp-IsMove m phase x e h = tt
