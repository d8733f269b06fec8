-- ===== src/Engine/Sessions/Runs.antt =====
-- Every interleaving of the sessions, and what a move of one of them does.
use teapod_tun2socks.Prelude.{
  ℕ, suc, ℤ, ◌≡◌, refl, List, [], true, Option, none, some, if◌then◌else◌,
}
use teapod_tun2socks.Hook.{EngineHook}
use teapod_tun2socks.Engine.Pipe.{Flow, step, finish}
use teapod_tun2socks.Engine.Pipe.Runs.{Ensures}
use teapod_tun2socks.Engine.Pipe.Runs
use teapod_tun2socks.Engine.Forward.{
  Server, track_udp, count_tcp, uncount_tcp, untrack_tcp, new_server,
}
use teapod_tun2socks.Engine.Sessions.{
  Phase, registered, piping, untracked, gone, Session, Sessions, begin_session, Move, counts,
  pipes_return, untracks, uncounts, pipe_acts, with_flow, move_session, Bool, false,
}
use teapod_tun2socks.Engine.Sessions.Table.{Changed}

-- The states that are reached when `n` numbers have been given. UDP flows take numbers, too; what
-- the other goroutines do leaves the connections, the numbers and the count alone.
pub data Reach {V : Type 0} (hook : EngineHook V) : ℕ → Sessions V → Type 0 where
  booted : Reach hook 0 (record { server = new_server hook; sessions = [] })
  begins :
      {n : ℕ} {s : Sessions V} (app : ℕ) (now : ℤ)
      → Reach hook n s
      → Reach hook (suc n) (begin_session app now s)
  moves :
      {n : ℕ} {s : Sessions V} (m : Move) (x y : Session Flow) (e : Server V)
      (l : List (Session Flow))
      → Reach hook n s
      → Changed x y s.sessions l
      → move_session m x.phase x s.server ≡ some (y, e)
      → Reach hook n (record { server = e; sessions = l })
  udp_begins :
      {n : ℕ} {s : Sessions V} (app : ℕ)
      → Reach hook n s
      → Reach hook (suc n) (record s { server = track_udp app s.server })
  elsewhere :
      {n : ℕ} {s : Sessions V} (e : Server V)
      → Reach hook n s
      → e.conns ≡ s.server.conns
      → e.conns_seq ≡ s.server.conns_seq
      → e.active_conns ≡ s.server.active_conns
      → Reach hook n (record s { server = e })

-- What a move makes of a session and of the server.
pub data Moved {V : Type 0} (x : Session Flow) (e : Server V)
    : Session Flow → Server V → Type 0 where
  flowed :
      (f : Flow)
      → x.phase ≡ piping
      → ((now : ℤ) → Runs.Reach now 0 x.flow → Runs.Reach now 0 f)
      → Moved x e (record x { flow = f }) e
  counted : x.phase ≡ registered → Moved x e (record x { phase = piping }) (count_tcp e)
  dropped :
      x.phase ≡ piping
      → x.flow.returned ≡ true
      → Moved x e (record x { phase = untracked }) (untrack_tcp x.id e)
  uncounted : x.phase ≡ untracked → Moved x e (record x { phase = gone }) (uncount_tcp e)

abbrev pub IsMove : {V : Type 0} → Session Flow → Server V → Session Flow × Server V → Type 0
IsMove x e r = Moved x e r.0 r.1

with_flow-IsMove :
    {V : Type 0} (x : Session Flow) (e : Server V) (o : Option Flow)
    → x.phase ≡ piping
    → ((now : ℤ) (f : Flow) → o ≡ some f → Runs.Reach now 0 x.flow → Runs.Reach now 0 f)
    → Ensures (with_flow o x e) (IsMove x e)
with_flow-IsMove x e none h k = tt
with_flow-IsMove x e (some f) h k = flowed f h (λ now r. k now f refl r)

pub Ensures-if :
    {A : Type 0} (P : A → Type 0) (b : Bool) (m n : Option A)
    → (b ≡ true → Ensures m P)
    → (b ≡ false → Ensures n P)
    → Ensures (if b then m else n) P
Ensures-if P true m n h k = h refl
Ensures-if P false m n h k = k refl

pub move_session-IsMove :
    {V : Type 0} (m : Move) (phase : Phase) (x : Session Flow) (e : Server V)
    → x.phase ≡ phase
    → Ensures (move_session m phase x e) (IsMove x e)
unfolding move_session
move_session-IsMove counts registered x e h = counted h
move_session-IsMove (pipe_acts d event) piping x e h =
    with_flow-IsMove x e (step d event x.flow) h (λ now f ran r. Runs.stepped d event r ran)
move_session-IsMove pipes_return piping x e h =
    Ensures-if (IsMove x e) x.flow.returned none (with_flow (finish x.flow) x e) (λ over. tt)
      (λ runs. with_flow-IsMove x e (finish x.flow) h (λ now f ran r. Runs.finished r runs ran))
move_session-IsMove untracks piping x e h =
    Ensures-if (IsMove x e) x.flow.returned
      (some (record x { phase = untracked }, untrack_tcp x.id e)) none (dropped h) (λ runs. tt)
move_session-IsMove uncounts untracked x e h = uncounted h
move_session-IsMove m phase x e h = tt
