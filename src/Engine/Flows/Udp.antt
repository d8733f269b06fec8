-- ===== src/Engine/Flows/Udp.antt =====
-- The UDP flows of an engine on their own: what the TCP flows do leaves them alone.
use teapod_tun2socks.Prelude.{ℕ, ◌≡◌, refl}
use teapod_tun2socks.Hook.{EngineHook}
use teapod_tun2socks.Engine.Pipe.Runs.{Ensures-some}
use teapod_tun2socks.Engine.Pipe.{Flow}
use teapod_tun2socks.Engine.Forward.{Server, untrack_tcp, count_tcp, uncount_tcp}
use teapod_tun2socks.Engine.Sessions.{Session, move_session, begin_session}
use teapod_tun2socks.Engine.UdpSessions.Runs
use teapod_tun2socks.Engine.Sessions.Runs.{
  Moved, flowed, counted, dropped, uncounted, IsMove, move_session-IsMove,
}
use teapod_tun2socks.Engine.Flows.{
  Flows, udp_part, Reach, booted, tcp_begins, tcp_moves, udp_admits, udp_exceeds, udp_backs_off,
  udp_gives_up, udp_begins, udp_moves, elsewhere,
}

-- What the UDP flows see of the server is the same.
record SameUdp {V : Type 0} (e e' : Server V) : Type 0 where
  pub same_conns : e'.udp_conns ≡ e.udp_conns
  pub same_seq : e'.conns_seq ≡ e.conns_seq
  pub same_active : e'.active_udp_conns ≡ e.active_udp_conns

Moved-SameUdp : {V : Type 0} (x y : Session Flow) (e e' : Server V) → Moved x e y e' → SameUdp e e'
unfolding count_tcp untrack_tcp uncount_tcp
Moved-SameUdp x _ e _ (flowed f h k) = record {
  same_conns = refl;
  same_seq = refl;
  same_active = refl;
}
Moved-SameUdp x _ e _ (counted h) = record {
  same_conns = refl;
  same_seq = refl;
  same_active = refl;
}
Moved-SameUdp x _ e _ (dropped h k) = record {
  same_conns = refl;
  same_seq = refl;
  same_active = refl;
}
Moved-SameUdp x _ e _ (uncounted h) = record {
  same_conns = refl;
  same_seq = refl;
  same_active = refl;
}

pub udp_part-Reach :
    {V : Type 0} {hook : EngineHook V} {n : ℕ} {f : Flows V}
    → Reach hook n f
    → Runs.Reach hook n (udp_part f)
unfolding begin_session
udp_part-Reach booted = Runs.booted
udp_part-Reach (tcp_begins app now r) = Runs.tcp_begins app (udp_part-Reach r)
udp_part-Reach (tcp_moves {f = f} m x y e l r c ran) =
    let moved =
      Ensures-some (IsMove x f.server) (move_session m x.phase x f.server) (y, e)
        (move_session-IsMove m x.phase x f.server refl) ran in
    let same = Moved-SameUdp x y f.server e moved in
    Runs.elsewhere e (udp_part-Reach r) same.same_conns same.same_seq same.same_active
udp_part-Reach (udp_admits r free fit) = Runs.admits (udp_part-Reach r) free fit
udp_part-Reach (udp_exceeds r free unfit) = Runs.exceeds (udp_part-Reach r) free unfit
udp_part-Reach (udp_backs_off r over) = Runs.backs_off (udp_part-Reach r) over
udp_part-Reach (udp_gives_up k r h) = Runs.gives_up k (udp_part-Reach r) h
udp_part-Reach (udp_begins app c k r address h) = Runs.begins app c k (udp_part-Reach r) address h
udp_part-Reach (udp_moves m x y e l r c ran) = Runs.moves m x y e l (udp_part-Reach r) c ran
udp_part-Reach (elsewhere e r conns udp_conns seq active active_udp) =
    Runs.elsewhere e (udp_part-Reach r) udp_conns seq active_udp
