-- ===== src/Engine/Flows/Tcp.antt =====
-- The TCP flows of an engine on their own: what the UDP flows do leaves them alone.
use teapod_tun2socks.Prelude.{ℕ, ◌≡◌, refl}
use teapod_tun2socks.Hook.{EngineHook}
use teapod_tun2socks.Engine.Pipe.Runs.{Ensures-some}
use teapod_tun2socks.Engine.Forward.{Server, reserve_slot, release_slot, untrack_udp}
use teapod_tun2socks.Engine.Sessions.{Session}
use teapod_tun2socks.Engine.Sessions.Runs
use teapod_tun2socks.Engine.UdpSessions.{UdpFlow, move_udp, begin_relay}
use teapod_tun2socks.Engine.UdpSessions.Runs.{
  Moved, relayed, dropped, released, IsMove, move_udp-IsMove,
}
use teapod_tun2socks.Engine.Flows.{
  Flows, tcp_part, Reach, booted, tcp_begins, tcp_moves, udp_admits, udp_exceeds, udp_backs_off,
  udp_gives_up, udp_begins, udp_moves, elsewhere,
}

-- What the TCP flows see of the server is the same.
record SameTcp {V : Type 0} (e e' : Server V) : Type 0 where
  pub same_conns : e'.conns ≡ e.conns
  pub same_seq : e'.conns_seq ≡ e.conns_seq
  pub same_active : e'.active_conns ≡ e.active_conns

Moved-SameTcp :
    {V : Type 0} (x y : Session UdpFlow) (e e' : Server V) → Moved x e y e' → SameTcp e e'
unfolding untrack_udp release_slot
Moved-SameTcp x _ e _ (relayed f h k) = record {
  same_conns = refl;
  same_seq = refl;
  same_active = refl;
}
Moved-SameTcp x _ e _ (dropped h k) = record {
  same_conns = refl;
  same_seq = refl;
  same_active = refl;
}
Moved-SameTcp x _ e _ (released h) = record {
  same_conns = refl;
  same_seq = refl;
  same_active = refl;
}

pub tcp_part-Reach :
    {V : Type 0} {hook : EngineHook V} {n : ℕ} {f : Flows V}
    → Reach hook n f
    → Runs.Reach hook n (tcp_part f)
unfolding reserve_slot release_slot begin_relay
tcp_part-Reach booted = Runs.booted
tcp_part-Reach (tcp_begins app now r) = Runs.begins app now (tcp_part-Reach r)
tcp_part-Reach (tcp_moves m x y e l r c ran) = Runs.moves m x y e l (tcp_part-Reach r) c ran
tcp_part-Reach (udp_admits {f = f} r free fit) =
    Runs.elsewhere (reserve_slot f.server).0 (tcp_part-Reach r) refl refl refl
tcp_part-Reach (udp_exceeds {f = f} r free unfit) =
    Runs.elsewhere (reserve_slot f.server).0 (tcp_part-Reach r) refl refl refl
tcp_part-Reach (udp_backs_off {f = f} r over) =
    Runs.elsewhere (release_slot f.server) (tcp_part-Reach r) refl refl refl
tcp_part-Reach (udp_gives_up {f = f} k r h) =
    Runs.elsewhere (release_slot f.server) (tcp_part-Reach r) refl refl refl
tcp_part-Reach (udp_begins app c k r address h) = Runs.udp_begins app (tcp_part-Reach r)
tcp_part-Reach (udp_moves {f = f} m x y e l r c ran) =
    let moved =
      Ensures-some (IsMove x f.server) (move_udp m x.phase x f.server) (y, e)
        (move_udp-IsMove m x.phase x f.server refl) ran in
    let same = Moved-SameTcp x y f.server e moved in
    Runs.elsewhere e (tcp_part-Reach r) same.same_conns same.same_seq same.same_active
tcp_part-Reach (elsewhere e r conns udp_conns seq active active_udp) =
    Runs.elsewhere e (tcp_part-Reach r) conns seq active
