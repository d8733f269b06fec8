-- ===== src/Engine/UdpSessions/Cap.antt =====
-- The invariant of the UDP flows in every interleaving, and the sockets that are open.
use teapod_tun2socks.Engine.Forward.Tracking.{release_slot-wrap}
use teapod_tun2socks.Prelude.{
  ℕ, suc, ◌+◌, ◌≤◌, ◌<◌, ◌≡◌, refl, sym, ap, ◌∙◌, pos, ◌==◌, List, [], ◌∷◌, arith, Bool-cases, inl,
  inr,
}
use teapod_tun2socks.Hook.{EngineHook}
use teapod_tun2socks.Engine.Pipe.Runs.{Ensures-some}
use teapod_tun2socks.Engine.Relay.Closing.{relay_settles}
use teapod_tun2socks.Engine.Forward.{Server, track_tcp, untrack_udp, release_slot}
use teapod_tun2socks.Engine.Forward.Table.{untrack}
use teapod_tun2socks.Engine.Sessions.{Session, untracked, gone}
use teapod_tun2socks.Engine.Sessions.Table.{
  is_tracked, is_counted, entries, one_if, count_sessions, Changed, IsDistinct-more,
  Changed-IsDistinct, Changed-entries, untrack-entries, Changed-count,
}
use teapod_tun2socks.Engine.UdpSessions.{UdpFlow, UdpSessions, move_udp}
use teapod_tun2socks.Engine.UdpSessions.Runs.{
  Reach, booted, admits, exceeds, backs_off, gives_up, begins, moves, tcp_begins, elsewhere, Moved,
  relayed, dropped, released, IsMove, move_udp-IsMove,
}
use teapod_tun2socks.Engine.UdpSessions.Invariant.{
  IsLive, AllLive, IsCapped, AllLive-Changed, admits-IsCapped, exceeds-IsCapped, backs_off-IsCapped,
  pending-bound, gives_up-IsCapped, begin_relay-IsCapped, pending,
}

-- One flow changes, and the server with it.
IsCapped-change :
    {V : Type 0} (n : ℕ) (x y : Session UdpFlow) (s : UdpSessions V) (e : Server V)
    (l : List (Session UdpFlow))
    → Changed x y s.sessions l
    → x.id ≡ y.id
    → e.conns_seq ≡ s.server.conns_seq
    → e.udp_conns ≡ entries l
    → e.active_udp_conns ≡ pos (s.holding + count_sessions l + pending s.over)
    → count_sessions l ≤ count_sessions s.sessions
    → (IsLive x → IsLive y)
    → IsCapped n s
    → IsCapped n (record s { server = e; sessions = l })
IsCapped-change n x y s e l c same seq table count fewer live v =
    let cap = v.capped in
    record {
      numbered = seq ∙ v.numbered;
      distinct = Changed-IsDistinct n x y s.sessions l c same v.distinct;
      table = table;
      counted = count;
      capped = omega arith;
      live = AllLive-Changed x y s.sessions l c live v.live;
    }

Moved-IsCapped :
    {V : Type 0} (n : ℕ) (x y : Session UdpFlow) (s : UdpSessions V) (e : Server V)
    (l : List (Session UdpFlow))
    → Changed x y s.sessions l
    → Moved x s.server y e
    → IsCapped n s
    → IsCapped n (record s { server = e; sessions = l })
unfolding untrack_udp
Moved-IsCapped n x _ s e l c (relayed f reach still) v =
    let y : Session UdpFlow = record x { flow = record x.flow { relay = f } } in
    let same_count = Changed-count x y s.sessions l c in
    IsCapped-change n x y s e l c refl refl
      (v.table ∙ sym (Changed-entries x y s.sessions l c refl refl refl))
      (v.counted ∙ ap pos (omega arith)) (omega arith)
      (λ h.
        let settled = relay_settles h.address h.reached.2 in
        record {
          address = h.address;
          reached = reach h.reached;
          left_after = λ off. still settled (h.left_after off);
          freed_after = λ off. still settled (h.freed_after off);
        })
      v
Moved-IsCapped n x _ s _ l c (dropped piping_now over) v =
    let y : Session UdpFlow = record x { phase = untracked } in
    let before = ap (λ p. one_if (is_counted p)) piping_now in
    let same_count = Changed-count x y s.sessions l c in
    IsCapped-change n x y s (untrack_udp x.id s.server) l c refl refl
      (ap (untrack x.id) v.table
        ∙ sym (untrack-entries n x y s.sessions l c (ap is_tracked piping_now) refl v.distinct))
      (v.counted ∙ ap pos (omega arith)) (omega arith)
      (λ h. record {
        address = h.address;
        reached = h.reached;
        left_after = λ off. over;
        freed_after = λ off. over;
      })
      v
Moved-IsCapped n x _ s _ l c (released untracked_now) v =
    let y : Session UdpFlow = record x { phase = gone } in
    let before = ap (λ p. one_if (is_counted p)) untracked_now in
    let one_less = Changed-count x y s.sessions l c in
    let cap = v.capped in
    let one = pending-bound s.over in
    let rest = s.holding + count_sessions l + pending s.over in
    let active : s.server.active_udp_conns ≡ pos (suc rest) = v.counted ∙ ap pos (omega arith) in
    let wrapped = release_slot-wrap rest s.server (omega arith) active in
    IsCapped-change n x y s (release_slot s.server) l c refl (ap (λ e. e.conns_seq) wrapped)
      (ap (λ e. e.udp_conns) wrapped
        ∙ (v.table
            ∙ sym (Changed-entries x y s.sessions l c refl refl (ap is_tracked untracked_now))))
      (ap (λ e. e.active_udp_conns) wrapped) (omega arith)
      (λ h. record {
        address = h.address;
        reached = h.reached;
        left_after = λ off. h.left_after (ap is_tracked untracked_now);
        freed_after = λ off. h.left_after (ap is_tracked untracked_now);
      })
      v

-- In every interleaving of the UDP flows, for less than 2^63 numbers, `IsCapped` holds: the table
-- has exactly the flows from their `trackUDPConn` to their `untrackUDPConn`, under numbers that are
-- not used twice; `activeUDPConns` counts the slots that are held and a reservation that is to be
-- taken back; at most 512 slots are held; and a flow leaves the table, and gives its slot back,
-- only after `pipeUDP` has returned.
pub Reach-IsCapped :
    {V : Type 0} {hook : EngineHook V} {n : ℕ} {s : UdpSessions V}
    → Reach hook n s
    → n < 9223372036854775808
    → IsCapped n s
unfolding track_tcp
Reach-IsCapped booted small = record {
  numbered = refl;
  distinct = tt;
  table = refl;
  counted = refl;
  capped = omega arith;
  live = tt;
}
Reach-IsCapped (admits {n} {s} r free fit) small =
    admits-IsCapped n s free fit (Reach-IsCapped r small)
Reach-IsCapped (exceeds {n} {s} r free unfit) small =
    exceeds-IsCapped n s free (Reach-IsCapped r small)
Reach-IsCapped (backs_off {n} {s} r over) small =
    backs_off-IsCapped n s over (Reach-IsCapped r small)
Reach-IsCapped (gives_up {n} {s} k r h) small = gives_up-IsCapped n k s h (Reach-IsCapped r small)
Reach-IsCapped (begins {n} {s} app c k r address h) small =
    begin_relay-IsCapped n app k c s small address h (Reach-IsCapped r (omega arith))
Reach-IsCapped (moves {n} {s} m x y e l r c ran) small =
    let moved =
      Ensures-some (IsMove x s.server) (move_udp m x.phase x s.server) (y, e)
        (move_udp-IsMove m x.phase x s.server refl) ran in
    Moved-IsCapped n x y s e l c moved (Reach-IsCapped r small)
Reach-IsCapped (tcp_begins {n} {s} app r) small =
    let v = Reach-IsCapped r (omega arith) in
    record {
      numbered = let seq = v.numbered in ground arith;
      distinct = IsDistinct-more n (suc n) s.sessions (omega arith) v.distinct;
      table = v.table;
      counted = v.counted;
      capped = v.capped;
      live = v.live;
    }
Reach-IsCapped (elsewhere {n} {s} e r conns seq active) small =
    let v = Reach-IsCapped r small in
    record {
      numbered = seq ∙ v.numbered;
      distinct = v.distinct;
      table = conns ∙ v.table;
      counted = active ∙ v.counted;
      capped = v.capped;
      live = v.live;
    }

-- The flows whose UDP socket and control connection are not closed.
abbrev pub count_open : List (Session UdpFlow) → ℕ
count_open [] = 0
count_open (x ∷ l) = one_if (x.flow.relay.socket_closes == 0) + count_open l

count_open-bound : (l : List (Session UdpFlow)) → AllLive l → count_open l ≤ count_sessions l
count_open-bound [] live = omega arith
count_open-bound (x ∷ l) live =
    let rest = count_open-bound l live.1 in
    elim (Bool-cases (is_counted x.phase)) [
      | inl on ↦
          let counted = ap one_if on in
          let one : one_if (x.flow.relay.socket_closes == 0) ≤ 1 = ground arith in omega arith
      | inr off ↦
          let settled = relay_settles live.0.address live.0.reached.2 in
          let shut = (settled.in_the_end (live.0.freed_after off)).2 in
          let closes = (settled.once_shut shut).1 in
          let none_open : one_if (x.flow.relay.socket_closes == 0) ≡ 0 = rw (closes) refl in
          omega arith
    ]

-- In every interleaving of the UDP flows, for less than 2^63 numbers: the relays whose UDP socket is
-- not closed and the handlers that hold a slot without a relay yet are at most 512 together.
pub open_sockets_capped :
    {V : Type 0} {hook : EngineHook V} {n : ℕ} {s : UdpSessions V}
    → Reach hook n s
    → n < 9223372036854775808
    → s.holding + count_open s.sessions ≤ 512
open_sockets_capped {s = s} r small =
    let v = Reach-IsCapped r small in
    let cap = v.capped in let fewer = count_open-bound s.sessions v.live in omega arith
