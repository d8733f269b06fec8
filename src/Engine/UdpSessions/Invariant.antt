-- ===== src/Engine/UdpSessions/Invariant.antt =====
-- The table, the numbers and the slots of the UDP flows, and the state of their relays.
use teapod_tun2socks.Engine.Forward.Tracking.{untrack_other, wrap-add, release_slot-wrap}
use teapod_tun2socks.Prelude.{
  ℕ, suc, ◌+◌, ◌≤◌, ◌<◌, ◌≡◌, refl, sym, ap, ◌∙◌, pos, leb, List, [], ◌∷◌, Bool, true, false, arith,
}
use teapod_tun2socks.Socks.Datagram.RoundTrip.{IsAddress}
use teapod_tun2socks.Engine.Relay.{Config}
use teapod_tun2socks.Engine.Relay.Runs
use teapod_tun2socks.Engine.Forward.{
  Server, next_id, track_udp, reserve_slot, release_slot, max_udp_conns,
}
use teapod_tun2socks.Engine.Forward.Table.{track}
use teapod_tun2socks.Engine.Sessions.{Session}
use teapod_tun2socks.Engine.Sessions.Table.{
  is_tracked, is_counted, entries, count_sessions, IsDistinct, Changed, here, there, not_HasId,
  IsDistinct-more, Has-entries,
}
use teapod_tun2socks.Engine.UdpSessions.{UdpFlow, UdpSessions, begin_relay}
use teapod_tun2socks.Engine.UdpSessions.Steps.{IsReached}

-- The relay of a flow is in a state that it can reach, and `pipeUDP` has returned before the flow
-- leaves the table or gives its slot back.
pub record IsLive (x : Session UdpFlow) : Type 0 where
  pub address : IsAddress x.flow.config.dst_ip
  pub reached : IsReached x.flow.config x.flow.relay
  pub left_after : is_tracked x.phase ≡ false → x.flow.relay.returned ≡ true
  pub freed_after : is_counted x.phase ≡ false → x.flow.relay.returned ≡ true

abbrev pub AllLive : List (Session UdpFlow) → Type 0
AllLive [] = Unit
AllLive (x ∷ l) = IsLive x × AllLive l

-- A reservation that the callback has to take back is counted, too.
abbrev pub pending : Bool → ℕ
pending true = 1
pending false = 0

-- The slots that are held: by handlers without a relay, and by flows until they give them back
abbrev pub held : {V : Type 0} → UdpSessions V → ℕ
held s = s.holding + count_sessions s.sessions

-- For `n` numbers: the number given last is `n`, and no two flows share one; the table has the flows
-- from their `trackUDPConn` to their `untrackUDPConn`, and nothing else; `activeUDPConns` counts
-- the slots that are held and a reservation that is to be taken back; at most 512 slots are held;
-- and the relays are as above.
pub record IsCapped {V : Type 0} (n : ℕ) (s : UdpSessions V) : Type 0 where
  pub numbered : s.server.conns_seq ≡ n
  pub distinct : IsDistinct n s.sessions
  pub table : s.server.udp_conns ≡ entries s.sessions
  pub counted : s.server.active_udp_conns ≡ pos (held s + pending s.over)
  pub capped : held s ≤ max_udp_conns
  pub live : AllLive s.sessions

pub AllLive-Changed :
    (x y : Session UdpFlow) (l m : List (Session UdpFlow))
    → Changed x y l m
    → (IsLive x → IsLive y)
    → AllLive l
    → AllLive m
AllLive-Changed x y _ _ here f h = (f h.0, h.1)
AllLive-Changed x y _ _ (there {z} {l} {m} c) f h = (h.0, AllLive-Changed x y l m c f h.1)

-- A reservation, if `k` slots are counted.
reserve_slot-counted :
    {V : Type 0} (k : ℕ) (e : Server V)
    → k ≤ max_udp_conns
    → e.active_udp_conns ≡ pos k
    → ((reserve_slot e).0 ≡ record e { active_udp_conns = pos (k + 1) })
      × ((reserve_slot e).1 ≡ leb (k + 1) max_udp_conns)
unfolding reserve_slot
reserve_slot-counted k e small h = rw (h, wrap-add k (omega arith)) (refl, ground arith)

free-counted :
    {V : Type 0} (n : ℕ) (s : UdpSessions V)
    → s.over ≡ false
    → IsCapped n s
    → s.server.active_udp_conns ≡ pos (held s)
free-counted n s free v = v.counted ∙ ap pos (ap (λ b. held s + pending b) free ∙ omega arith)

pub admits-IsCapped :
    {V : Type 0} (n : ℕ) (s : UdpSessions V)
    → s.over ≡ false
    → (reserve_slot s.server).1 ≡ true
    → IsCapped n s
    → IsCapped n (record s { server = (reserve_slot s.server).0; holding = s.holding + 1 })
admits-IsCapped n s free fit v =
    let (after, verdict) =
      reserve_slot-counted (held s) s.server v.capped (free-counted n s free v) in
    let fits : leb (held s + 1) max_udp_conns ≡ true = sym verdict ∙ fit in
    let none_over = ap pending free in
    rw (after) (record {
      numbered = v.numbered;
      distinct = v.distinct;
      table = v.table;
      counted = ap pos (omega arith);
      capped = ground arith;
      live = v.live;
    })

pub exceeds-IsCapped :
    {V : Type 0} (n : ℕ) (s : UdpSessions V)
    → s.over ≡ false
    → IsCapped n s
    → IsCapped n (record s { server = (reserve_slot s.server).0; over = true })
exceeds-IsCapped n s free v =
    let (after, verdict) =
      reserve_slot-counted (held s) s.server v.capped (free-counted n s free v) in
    rw (after) (record {
      numbered = v.numbered;
      distinct = v.distinct;
      table = v.table;
      counted = refl;
      capped = v.capped;
      live = v.live;
    })

pub backs_off-IsCapped :
    {V : Type 0} (n : ℕ) (s : UdpSessions V)
    → s.over ≡ true
    → IsCapped n s
    → IsCapped n (record s { server = release_slot s.server; over = false })
backs_off-IsCapped n s over v =
    let cap = v.capped in
    let one_over = ap pending over in
    let active : s.server.active_udp_conns ≡ pos (suc (held s)) =
      v.counted ∙ ap pos (omega arith) in
    rw (release_slot-wrap (held s) s.server (omega arith) active) (record {
      numbered = v.numbered;
      distinct = v.distinct;
      table = v.table;
      counted = ap pos (omega arith);
      capped = v.capped;
      live = v.live;
    })

pub pending-bound : (b : Bool) → pending b ≤ 1
pending-bound true = omega arith
pending-bound false = omega arith

pub gives_up-IsCapped :
    {V : Type 0} (n k : ℕ) (s : UdpSessions V)
    → s.holding ≡ suc k
    → IsCapped n s
    → IsCapped n (record s { server = release_slot s.server; holding = k })
gives_up-IsCapped n k s h v =
    let cap = v.capped in
    let one = pending-bound s.over in
    let rest = k + count_sessions s.sessions + pending s.over in
    let active : s.server.active_udp_conns ≡ pos (suc rest) = v.counted ∙ ap pos (omega arith) in
    rw (release_slot-wrap rest s.server (omega arith) active) (record {
      numbered = v.numbered;
      distinct = v.distinct;
      table = v.table;
      counted = refl;
      capped = omega arith;
      live = v.live;
    })

pub begin_relay-IsCapped :
    {V : Type 0} (n app k : ℕ) (c : Config) (s : UdpSessions V)
    → suc n < 9223372036854775808
    → IsAddress c.dst_ip
    → s.holding ≡ suc k
    → IsCapped n s
    → IsCapped (suc n) (begin_relay app c k s)
unfolding begin_relay track_udp track
begin_relay-IsCapped n app k c s small address h v =
    let id : next_id s.server ≡ suc n = let e = v.numbered in ground arith in
    let absent = not_HasId n (suc n) s.sessions v.distinct (omega arith) in
    let kept =
      untrack_other (suc n) (entries s.sessions) (λ m. absent (Has-entries (suc n) s.sessions m)) in
    let cap = v.capped in
    rw (id) (record {
      numbered = refl;
      distinct =
          (absent, omega arith, IsDistinct-more n (suc n) s.sessions (omega arith) v.distinct);
      table = rw (v.table) (ap (◌∷◌ (suc n, app)) kept);
      counted = v.counted ∙ ap pos (omega arith);
      capped = omega arith;
      live = (
        record {
          address = address;
          reached = ([], [], Runs.started);
          left_after = λ off. absurd (cc off);
          freed_after = λ off. absurd (cc off);
        },
        v.live,
      );
    })
