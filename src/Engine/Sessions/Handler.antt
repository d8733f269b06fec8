-- ===== src/Engine/Sessions/Handler.antt =====
-- `handleTCPForwarder` as steps of the sessions.
use teapod_tun2socks.Engine.Pipe.{start}
use teapod_tun2socks.Prelude.{
  ℕ, suc, ◌+◌, ◌≡◌, refl, ℤ, List, length, Bool, true, false, Option, none, some, ret, arith, ◌∷◌,
}
use teapod_tun2socks.Hook.{EngineHook}
use teapod_tun2socks.Hook.Interleaving.{System}
use teapod_tun2socks.Hook.Interleaving
use teapod_tun2socks.Socks.Stream.{Conn, Out, done, failed}
use teapod_tun2socks.Socks.Client.{Socks5Client}
use teapod_tun2socks.Engine.Forward.{
  Server, FlowId, Handled, dial_failed, handle_tcp, count_tcp, track_tcp, next_id,
}
use teapod_tun2socks.Engine.Forward.Tcp.{Registers, flow_started, handle_tcp-IsSafe}
use teapod_tun2socks.Engine.Sessions.{Sessions, begin_session, counts, move_session, piping}
use teapod_tun2socks.Engine.Sessions.Table.{one_if, here}
use teapod_tun2socks.Engine.Sessions.Runs.{Reach, begins, moves, elsewhere}

-- A later state with that server, and with a new session if there is one.
pub record Follows {V : Type 0} (start_hook : EngineHook V) (n : ℕ) (started : Bool)
    (s : Sessions V) (e : Server V) : Type 0 where
  pub numbers : ℕ
  pub after : Sessions V
  pub reached : Reach start_hook numbers after
  pub numbers_given : numbers ≡ n + one_if started
  pub serves : after.server ≡ e
  pub sessions_begun : length after.sessions ≡ length s.sessions + one_if started

dial_failed-Follows :
    {V : Type 0} {start_hook : EngineHook V} {n : ℕ} (s : Sessions V)
    → Reach start_hook n s
    → Follows start_hook n false s (dial_failed s.server)
dial_failed-Follows {n = n} s r = record {
  numbers = n;
  after = record s { server = dial_failed s.server };
  reached = elsewhere (dial_failed s.server) r refl refl refl;
  numbers_given = omega arith;
  serves = refl;
  sessions_begun = omega arith;
}

same-Follows :
    {V : Type 0} {start_hook : EngineHook V} {n : ℕ} (s : Sessions V)
    → Reach start_hook n s
    → Follows start_hook n false s s.server
same-Follows {n = n} s r = record {
  numbers = n;
  after = s;
  reached = r;
  numbers_given = omega arith;
  serves = refl;
  sessions_begun = omega arith;
}

started-Follows :
    {V : Type 0} {start_hook : EngineHook V} {n : ℕ} (app : ℕ) (now : ℤ) (s : Sessions V)
    → Reach start_hook n s
    → Follows start_hook n true s (count_tcp (track_tcp app s.server))
unfolding begin_session move_session
started-Follows {n = n} app now s r = record {
  numbers = suc n;
  after = record {
    server = count_tcp (track_tcp app s.server);
    sessions =
        record { id = next_id s.server; app = app; flow = start now 0; phase = piping }
        ∷ s.sessions;
  };
  reached = moves counts _ _ _ _ (begins app now r) here refl;
  numbers_given = omega arith;
  serves = refl;
  sessions_begun = omega arith;
}

-- Whether the handler starts a flow.
abbrev pub begun : Option ℕ → Option (Option (Out (Unit {0}))) → Bool
begun none dialled = false
begun (some app) dialled = flow_started dialled

Registers-Follows :
    {V : Type 0} {start_hook : EngineHook V} {n : ℕ} (app : Option ℕ)
    (dialled : Option (Option (Out (Unit {0})))) (now : ℤ) (s : Sessions V) (e : Server V)
    → Reach start_hook n s
    → Registers app dialled s.server e
    → Follows start_hook n (begun app dialled) s e
Registers-Follows none none now s e r h = rw (h) (same-Follows s r)
Registers-Follows none (some d) now s e r h = rw (h) (dial_failed-Follows s r)
Registers-Follows (some app) none now s e r h = rw (h) (same-Follows s r)
Registers-Follows (some app) (some none) now s e r h = rw (h) (dial_failed-Follows s r)
Registers-Follows (some app) (some (some (failed err c))) now s e r h =
    rw (h) (dial_failed-Follows s r)
Registers-Follows (some app) (some (some (done _ c))) now s e r h =
    rw (h) (started-Follows app now s r)

module _ (ip_text : List ℕ → List ℕ) (decimal : ℕ → List ℕ) {V W : Type 0}
    (ask : V → List ℕ → ℤ → List ℕ → ℤ → ℤ → W → Bool × W) {capacity ttl_seconds : ℤ}
    (s : System V W) (reach : Interleaving.Reach ask capacity ttl_seconds s)
    {start_hook : EngineHook V} {n : ℕ} (sessions : Sessions V)
    (reach_sessions : Reach start_hook n sessions) (same : sessions.server.hook ≡ s.hook) where
  -- In every state that the goroutines can lead the hook and the TCP flows to, and with an open
  -- connection if the proxy can be dialled: `handleTCPForwarder` gets through without a panic, and
  -- leaves the server as steps of the TCP flows leave it. It takes one number and begins one
  -- session if the app's end has been created and the dial has succeeded, and none otherwise.
  pub handle_tcp-Follows :
      (parse_ip : List ℕ → Option (List ℕ)) (client : Socks5Client) (app : Option ℕ) (id : FlowId)
      (t1 t2 now : ℤ) (proxy : Option Conn) (w : W)
      → ((c : Conn) → proxy ≡ some c → c.closed ≡ false)
      → (e : Server V) × (w' : W) × (r : Handled (Option (Out (Unit {0})))) × (handle_tcp ip_text
            decimal ask parse_ip client app id t1 t2 proxy w sessions.server
          ≡ ret (e, w', r))
        × Follows start_hook n (begun app r.dialled) sessions e
  handle_tcp-Follows parse_ip client app id t1 t2 now proxy w h =
      let (e, w', r, h', t, ran, safe, _, _, _, _) =
        handle_tcp-IsSafe ip_text decimal ask s sessions.server reach same parse_ip client app id t1
          t2 proxy w h in
      let asked : Sessions V = record sessions { server = record sessions.server { hook = h' } } in
      let asked_reach = elsewhere asked.server reach_sessions refl refl refl in
      let f = Registers-Follows app r.dialled now asked e asked_reach safe.registers in
      (
        e,
        w',
        r,
        ran,
        record {
          numbers = f.numbers;
          after = f.after;
          reached = f.reached;
          numbers_given = f.numbers_given;
          serves = f.serves;
          sessions_begun = f.sessions_begun;
        },
      )
