-- ===== src/Engine/Flows/Closing.antt =====
-- `ActiveConns` and `CloseAllConnections` over all flows of an engine.
use mathlib.Core.List.{Perm}
use teapod_tun2socks.Prelude.{
  ℕ, ◌+◌, ◌<◌, ◌≡◌, pos, ◌+ℤ◌, wrap_i64, wrap_i64_small, List, ◌++◌, map, length, arith,
}
use teapod_tun2socks.Hook.{EngineHook}
use teapod_tun2socks.Engine.Forward.{active_conns_of}
use teapod_tun2socks.Engine.Forward.Table.{close_all_connections}
use teapod_tun2socks.Engine.Forward.Closing.{close_all_connections-Perm}
use teapod_tun2socks.Engine.Sessions.Table.{entries, count_sessions, count-length}
use teapod_tun2socks.Engine.Sessions.Reached.{AllReached}
use teapod_tun2socks.Engine.Sessions.Invariant.{Reach-IsTracked}
use teapod_tun2socks.Engine.Sessions.Closing.{IsClosed, close_all_connections-AllReached}
use teapod_tun2socks.Engine.UdpSessions.Invariant.{pending, pending-bound}
use teapod_tun2socks.Engine.UdpSessions.Cap.{Reach-IsCapped}
use teapod_tun2socks.Engine.UdpSessions.Closing.{IsReleased, close_all_connections-IsReleased}
use teapod_tun2socks.Engine.Flows.{Flows, Reach}
use teapod_tun2socks.Engine.Flows.Tcp.{tcp_part-Reach}
use teapod_tun2socks.Engine.Flows.Udp.{udp_part-Reach}

wrapped_sum : (a b : ℕ) → a + b < 9223372036854775808 → wrap_i64 (pos a +ℤ pos b) ≡ pos (a + b)
unfolding ◌+ℤ◌
wrapped_sum a b h =
    let sum : pos a +ℤ pos b ≡ pos (a + b) = ground arith in
    rw (sum) (wrap_i64_small (pos (a + b)) h (omega arith))

-- In every interleaving of the TCP and UDP flows, for less than 2^62 numbers: `ActiveConns` is the
-- number of the TCP flows between the two updates of their count, of the UDP flows that hold their
-- slot, of the handlers that hold a slot without a relay, and of a reservation that is to be taken
-- back.
pub active_conns_of-count_sessions :
    {V : Type 0} {hook : EngineHook V} {n : ℕ} {f : Flows V}
    → Reach hook n f
    → n < 4611686018427387904
    → active_conns_of f.server
      ≡ pos (count_sessions f.tcp + (f.holding + count_sessions f.udp + pending f.over))
unfolding active_conns_of
active_conns_of-count_sessions {f = f} r small =
    let v = Reach-IsTracked (tcp_part-Reach r) (omega arith) in
    let u = Reach-IsCapped (udp_part-Reach r) (omega arith) in
    let few = v.few in
    let low = count-length f.tcp in
    let cap = u.capped in
    let one = pending-bound f.over in
    rw (v.counted_all, u.counted) (wrapped_sum (count_sessions f.tcp) _ (omega arith))

-- What a call of `CloseAllConnections` closes and returns.
pub record IsComplete {V : Type 0} (f : Flows V) (closed : List ℕ × ℕ) : Type 0 where
  pub exact : Perm closed.0 (map (λ e. e.1) (entries f.tcp) ++ map (λ e. e.1) (entries f.udp))
  pub number : closed.1 ≡ length (entries f.tcp) + length (entries f.udp)
  pub tcp_reached : AllReached IsClosed closed.0 f.tcp
  pub udp_reached : AllReached IsReleased closed.0 f.udp

-- In every interleaving of the TCP and UDP flows, for less than 2^62 numbers, and if `range` visits
-- each entry of a map once: `CloseAllConnections` closes exactly the app's ends of the flows that
-- are in the two tables, each once, and returns their number; and it misses none: every flow that
-- was ever started is among them, or it has returned and closed each of its ends exactly once.
pub close_all_connections-IsComplete :
    {V : Type 0} {hook : EngineHook V} {n : ℕ} {f : Flows V} (range : List (ℕ × ℕ) → List (ℕ × ℕ))
    → Reach hook n f
    → n < 4611686018427387904
    → ((m : List (ℕ × ℕ)) → Perm (range m) m)
    → IsComplete f (close_all_connections range f.server.conns f.server.udp_conns)
close_all_connections-IsComplete {f = f} range r small visits =
    let v = Reach-IsTracked (tcp_part-Reach r) (omega arith) in
    let u = Reach-IsCapped (udp_part-Reach r) (omega arith) in
    let (closes, number) =
      close_all_connections-Perm range f.server.conns f.server.udp_conns visits in
    let (_, tcp) = close_all_connections-AllReached range (tcp_part-Reach r) (omega arith) visits in
    let (_, udp) = close_all_connections-IsReleased range (udp_part-Reach r) (omega arith) visits in
    record {
      exact = rw (← v.table, ← u.table) closes;
      number = rw (← v.table, ← u.table) number;
      tcp_reached = tcp;
      udp_reached = udp;
    }
