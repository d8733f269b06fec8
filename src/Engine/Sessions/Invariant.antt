-- ===== src/Engine/Sessions/Invariant.antt =====
-- The table, the numbers and the count of the sessions, and the state of their pipes.
use teapod_tun2socks.Engine.Forward.Tracking.{untrack_other, wrap-add, wrap-sub}
use teapod_tun2socks.Engine.Pipe.{Flow}
use teapod_tun2socks.Prelude.{
  ℕ, suc, ◌≤◌, ◌<◌, ◌≡◌, refl, sym, ap, ◌∙◌, ℤ, pos, List, [], ◌∷◌, length, true, false, arith,
  wrap_i64, ◌+ℤ◌, ◌-ℤ◌,
}
use teapod_tun2socks.Hook.{EngineHook}
use teapod_tun2socks.Engine.Pipe.Runs.{Ensures-some}
use teapod_tun2socks.Engine.Pipe.Runs
use teapod_tun2socks.Engine.Forward.{
  Server, next_id, track_tcp, track_udp, untrack_tcp, count_tcp, uncount_tcp,
}
use teapod_tun2socks.Engine.Forward.Table.{track, untrack}
use teapod_tun2socks.Engine.Sessions.{
  Session, Sessions, begin_session, move_session, piping, untracked, gone,
}
use teapod_tun2socks.Engine.Sessions.Table.{
  is_tracked, is_counted, entries, one_if, count_sessions, IsDistinct, Changed, here, there,
  not_HasId, IsDistinct-more, Changed-IsDistinct, Changed-entries, untrack-entries, Changed-count,
  Changed-length, count-length, Has-entries,
}
use teapod_tun2socks.Engine.Sessions.Runs.{
  Reach, booted, begins, moves, udp_begins, elsewhere, Moved, flowed, counted, dropped, uncounted,
  move_session-IsMove, IsMove,
}

-- The pipes of a session are in a state that they can reach, and they have returned before the
-- session leaves the table.
pub record IsLive (x : Session Flow) : Type 0 where
  pub since : ℤ
  pub reached : Runs.Reach since 0 x.flow
  pub left_after : is_tracked x.phase ≡ false → x.flow.returned ≡ true

abbrev pub AllLive : List (Session Flow) → Type 0
AllLive [] = Unit
AllLive (x ∷ l) = IsLive x × AllLive l

-- For `n` numbers: the number given last is `n`, and no two sessions share one; the table has the
-- sessions from their `trackConn` to their `untrackConn`, and nothing else; `activeConns` is the
-- number of those between the two updates of the count; and the pipes are as above.
pub record IsTracked {V : Type 0} (n : ℕ) (s : Sessions V) : Type 0 where
  pub numbered : s.server.conns_seq ≡ n
  pub distinct : IsDistinct n s.sessions
  pub few : length s.sessions ≤ n
  pub table : s.server.conns ≡ entries s.sessions
  pub counted_all : s.server.active_conns ≡ pos (count_sessions s.sessions)
  pub live : AllLive s.sessions

AllLive-Changed :
    (x y : Session Flow) (l m : List (Session Flow))
    → Changed x y l m
    → (IsLive x → IsLive y)
    → AllLive l
    → AllLive m
AllLive-Changed x y _ _ here f h = (f h.0, h.1)
AllLive-Changed x y _ _ (there {z} {l} {m} c) f h = (h.0, AllLive-Changed x y l m c f h.1)

begin_session-IsTracked :
    {V : Type 0} (n app : ℕ) (now : ℤ) (s : Sessions V)
    → suc n < 9223372036854775808
    → IsTracked n s
    → IsTracked (suc n) (begin_session app now s)
unfolding begin_session track_tcp track
begin_session-IsTracked n app now s small v =
    let id : next_id s.server ≡ suc n = let e = v.numbered in ground arith in
    let absent = not_HasId n (suc n) s.sessions v.distinct (omega arith) in
    let kept =
      untrack_other (suc n) (entries s.sessions) (λ m. absent (Has-entries (suc n) s.sessions m)) in
    let few = v.few in
    rw (id) (record {
      numbered = refl;
      distinct =
          (absent, omega arith, IsDistinct-more n (suc n) s.sessions (omega arith) v.distinct);
      few = omega arith;
      table = rw (v.table) (ap (◌∷◌ (suc n, app)) kept);
      counted_all = v.counted_all ∙ ap pos (omega arith);
      live =
          (record { since = now; reached = Runs.started; left_after = λ h. absurd (cc h) }, v.live);
    })

-- One session changes, and the server with it.
IsTracked-change :
    {V : Type 0} (n : ℕ) (x y : Session Flow) (s : Sessions V) (e : Server V)
    (l : List (Session Flow))
    → Changed x y s.sessions l
    → x.id ≡ y.id
    → e.conns_seq ≡ s.server.conns_seq
    → e.conns ≡ entries l
    → e.active_conns ≡ pos (count_sessions l)
    → (IsLive x → IsLive y)
    → IsTracked n s
    → IsTracked n (record { server = e; sessions = l })
IsTracked-change n x y s e l c same seq table count live v = record {
  numbered = seq ∙ v.numbered;
  distinct = Changed-IsDistinct n x y s.sessions l c same v.distinct;
  few = rw (Changed-length x y s.sessions l c) (v.few);
  table = table;
  counted_all = count;
  live = AllLive-Changed x y s.sessions l c live v.live;
}

flowed-IsLive :
    (x : Session Flow) (f : Flow)
    → x.phase ≡ piping
    → ((now : ℤ) → Runs.Reach now 0 x.flow → Runs.Reach now 0 f)
    → IsLive x
    → IsLive (record x { flow = f })
flowed-IsLive x f piping_now reach h = record {
  since = h.since;
  reached = reach h.since h.reached;
  left_after = λ off. absurd (cc (off, ap is_tracked piping_now));
}

Moved-IsTracked :
    {V : Type 0} (n : ℕ) (x y : Session Flow) (s : Sessions V) (e : Server V)
    (l : List (Session Flow))
    → n < 9223372036854775807
    → Changed x y s.sessions l
    → Moved x s.server y e
    → IsTracked n s
    → IsTracked n (record { server = e; sessions = l })
unfolding count_tcp uncount_tcp untrack_tcp
Moved-IsTracked n x _ s e l small c (flowed f piping_now reach) v =
    let y : Session Flow = record x { flow = f } in
    let same_count = Changed-count x y s.sessions l c in
    IsTracked-change n x y s e l c refl refl
      (v.table ∙ sym (Changed-entries x y s.sessions l c refl refl refl))
      (v.counted_all ∙ ap pos (omega arith)) (flowed-IsLive x f piping_now reach) v
Moved-IsTracked n x _ s _ l small c (counted registered_now) v =
    let y : Session Flow = record x { phase = piping } in
    let before = ap (λ p. one_if (is_counted p)) registered_now in
    let one_more = Changed-count x y s.sessions l c in
    let few = v.few in
    let low = count-length s.sessions in
    IsTracked-change n x y s (count_tcp s.server) l c refl refl
      (v.table ∙ sym (Changed-entries x y s.sessions l c refl refl (ap is_tracked registered_now)))
      (ap (λ k. wrap_i64 (k +ℤ pos 1)) v.counted_all
        ∙ wrap-add (count_sessions s.sessions) (omega arith)
        ∙ ap pos (omega arith))
      (λ h. record { since = h.since; reached = h.reached; left_after = λ off. absurd (cc off) }) v
Moved-IsTracked n x _ s _ l small c (dropped piping_now over) v =
    let y : Session Flow = record x { phase = untracked } in
    let before = ap (λ p. one_if (is_counted p)) piping_now in
    let same_count = Changed-count x y s.sessions l c in
    IsTracked-change n x y s (untrack_tcp x.id s.server) l c refl refl
      (ap (untrack x.id) v.table
        ∙ sym (untrack-entries n x y s.sessions l c (ap is_tracked piping_now) refl v.distinct))
      (v.counted_all ∙ ap pos (omega arith))
      (λ h. record { since = h.since; reached = h.reached; left_after = λ off. over }) v
Moved-IsTracked n x _ s _ l small c (uncounted untracked_now) v =
    let y : Session Flow = record x { phase = gone } in
    let before = ap (λ p. one_if (is_counted p)) untracked_now in
    let one_less = Changed-count x y s.sessions l c in
    let few = v.few in
    let low = count-length s.sessions in
    let rest = count_sessions l in
    IsTracked-change n x y s (uncount_tcp s.server) l c refl refl
      (v.table ∙ sym (Changed-entries x y s.sessions l c refl refl (ap is_tracked untracked_now)))
      (ap (λ k. wrap_i64 (k -ℤ pos 1)) (v.counted_all ∙ ap pos (omega arith))
        ∙ wrap-sub rest (omega arith))
      (λ h. record {
        since = h.since;
        reached = h.reached;
        left_after = λ off. h.left_after (ap is_tracked untracked_now);
      })
      v

-- In every interleaving of the TCP flows, for less than 2^63 - 1 numbers, `IsTracked` holds: the
-- table has exactly the flows from their `trackConn` to their `untrackConn`, under numbers that are
-- not used twice; `activeConns` is the number of flows between the two updates of the count; and a
-- flow leaves the table only after `pipeConnections` has returned.
pub Reach-IsTracked :
    {V : Type 0} {hook : EngineHook V} {n : ℕ} {s : Sessions V}
    → Reach hook n s
    → n < 9223372036854775807
    → IsTracked n s
unfolding track_udp
Reach-IsTracked booted small = record {
  numbered = refl;
  distinct = tt;
  few = omega arith;
  table = refl;
  counted_all = refl;
  live = tt;
}
Reach-IsTracked (begins {n} {s} app now r) small =
    begin_session-IsTracked n app now s (omega arith) (Reach-IsTracked r (omega arith))
Reach-IsTracked (moves {n} {s} m x y e l r c ran) small =
    let moved =
      Ensures-some (IsMove x s.server) (move_session m x.phase x s.server) (y, e)
        (move_session-IsMove m x.phase x s.server refl) ran in
    Moved-IsTracked n x y s e l small c moved (Reach-IsTracked r small)
Reach-IsTracked (udp_begins {n} {s} app r) small =
    let v = Reach-IsTracked r (omega arith) in
    let few = v.few in
    record {
      numbered = let seq = v.numbered in ground arith;
      distinct = IsDistinct-more n (suc n) s.sessions (omega arith) v.distinct;
      few = omega arith;
      table = v.table;
      counted_all = v.counted_all;
      live = v.live;
    }
Reach-IsTracked (elsewhere {n} {s} e r conns seq active) small =
    let v = Reach-IsTracked r small in
    record {
      numbered = seq ∙ v.numbered;
      distinct = v.distinct;
      few = v.few;
      table = conns ∙ v.table;
      counted_all = active ∙ v.counted_all;
      live = v.live;
    }
