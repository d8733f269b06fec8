-- ===== src/Engine/UdpSessions/Handler.antt =====
-- `handleUDPForwarder` as steps of the UDP flows.
use teapod_tun2socks.Prelude.{
  ℕ, suc, ◌+◌, ◌≡◌, refl, ℤ, List, length, Bool, true, false, Option, none, some, ret, arith, pos,
}
use teapod_tun2socks.Hook.{EngineHook}
use teapod_tun2socks.Hook.Interleaving
use teapod_tun2socks.Hook.Interleaving.{System}
use teapod_tun2socks.Socks.Stream.{Conn}
use teapod_tun2socks.Socks.Client.{Socks5Client}
use teapod_tun2socks.Socks.Datagram.RoundTrip.{IsAddress}
use teapod_tun2socks.Socks.Dial.{Association, associated, gave_up}
use teapod_tun2socks.Engine.Relay.{Config, UdpAddr}
use teapod_tun2socks.Engine.Forward.{
  Server, FlowId, Handled, dial_failed, release_slot, track_udp, handle_udp,
}
use teapod_tun2socks.Engine.Forward.Udp.{RegistersUdp, relay_started, handle_udp-IsSafeUdp}
use teapod_tun2socks.Engine.Sessions.Table.{one_if}
use teapod_tun2socks.Engine.UdpSessions.{UdpSessions, begin_relay}
use teapod_tun2socks.Engine.UdpSessions.Runs.{Reach, gives_up, begins, elsewhere}

-- A later state with that server, with `k` handlers that hold a slot without a relay, and with a new
-- relay if there is one.
pub record Follows {V : Type 0} (start_hook : EngineHook V) (n k : ℕ) (started : Bool)
    (s : UdpSessions V) (e : Server V) : Type 0 where
  pub numbers : ℕ
  pub after : UdpSessions V
  pub reached : Reach start_hook numbers after
  pub numbers_given : numbers ≡ n + one_if started
  pub serves : after.server ≡ e
  pub passed_on : after.holding ≡ k
  pub relays_begun : length after.sessions ≡ length s.sessions + one_if started

-- Whether the handler starts a relay.
abbrev pub begun : {R : Type 0} → Option ℕ → Option (Option (Association R)) → Bool
begun none dialled = false
begun (some app) dialled = relay_started dialled

module _ {V : Type 0} {start_hook : EngineHook V} {n : ℕ} (k : ℕ) (s : UdpSessions V)
    (r : Reach start_hook n s) (slot : s.holding ≡ suc k) where
  gives_up-Follows : Follows start_hook n k false s (release_slot s.server)
  gives_up-Follows = record {
    numbers = n;
    after = record s { server = release_slot s.server; holding = k };
    reached = gives_up k r slot;
    numbers_given = omega arith;
    serves = refl;
    passed_on = refl;
    relays_begun = omega arith;
  }

  dial_failed-Follows : Follows start_hook n k false s (release_slot (dial_failed s.server))
  dial_failed-Follows = record {
    numbers = n;
    after = record s { server = release_slot (dial_failed s.server); holding = k };
    reached = gives_up k (elsewhere (dial_failed s.server) r refl refl refl) slot;
    numbers_given = omega arith;
    serves = refl;
    passed_on = refl;
    relays_begun = omega arith;
  }

  begins-Follows :
      (app : ℕ) (c : Config)
      → IsAddress c.dst_ip
      → Follows start_hook n k true s (track_udp app s.server)
  unfolding begin_relay
  begins-Follows app c address = record {
    numbers = suc n;
    after = begin_relay app c k s;
    reached = begins app c k r address slot;
    numbers_given = omega arith;
    serves = refl;
    passed_on = refl;
    relays_begun = omega arith;
  }

  RegistersUdp-Follows :
      {R : Type 0} (app : Option ℕ) (dialled : Option (Option (Association R))) (c : Config)
      (e : Server V)
      → IsAddress c.dst_ip
      → RegistersUdp app dialled s.server e
      → Follows start_hook n k (begun app dialled) s e
  RegistersUdp-Follows none none c e address h = rw (h) gives_up-Follows
  RegistersUdp-Follows none (some d) c e address h = rw (h) dial_failed-Follows
  RegistersUdp-Follows (some app) none c e address h = rw (h) gives_up-Follows
  RegistersUdp-Follows (some app) (some none) c e address h = rw (h) dial_failed-Follows
  RegistersUdp-Follows (some app) (some (some (gave_up err d socket))) c e address h =
      rw (h) dial_failed-Follows
  RegistersUdp-Follows (some app) (some (some (associated relay d socket))) c e address h =
      rw (h) (begins-Follows app c address)

module _ (ip_text : List ℕ → List ℕ) (decimal : ℕ → List ℕ) {V W : Type 0}
    (ask : V → List ℕ → ℤ → List ℕ → ℤ → ℤ → W → Bool × W) {R : Type 0}
    (resolve : List ℕ → Option R) {capacity ttl_seconds : ℤ} (s : System V W)
    (reach : Interleaving.Reach ask capacity ttl_seconds s) {start_hook : EngineHook V} {n k : ℕ}
    (flows : UdpSessions V) (reach_flows : Reach start_hook n flows)
    (same : flows.server.hook ≡ s.hook) (slot : flows.holding ≡ suc k) where
  -- In every state that the goroutines can lead the hook and the UDP flows to, for a handler that
  -- holds a slot, a destination of four or sixteen bytes, and an open connection if the proxy can
  -- be dialled: `handleUDPForwarder` gets to its relay or to its end without a panic, and leaves
  -- the server as steps of the UDP flows leave it. The slot goes to a new relay, under a new
  -- number, if the app's end has been created and the association has succeeded, and is released
  -- otherwise.
  pub handle_udp-Follows :
      (client : Socks5Client) (app : Option ℕ) (id : FlowId) (mtu : ℕ) (relay : UdpAddr) (t1 t2 : ℤ)
      (proxy : Option Conn) (listen : Option ℕ) (w : W)
      → IsAddress id.dst_ip
      → ((d : Conn) → proxy ≡ some d → d.closed ≡ false)
      → (e : Server V) × (w' : W) × (r : Handled (Option (Association R))) × (handle_udp ip_text
            decimal ask resolve client app id t1 t2 proxy listen w flows.server
          ≡ ret (e, w', r))
        × Follows start_hook n k (begun app r.dialled) flows e
  handle_udp-Follows client app id mtu relay t1 t2 proxy listen w address h =
      let (e, w', r, h', t, ran, safe, _, _, _, _) =
        handle_udp-IsSafeUdp ip_text decimal ask resolve s flows.server reach same client app id t1
          t2 proxy listen w h in
      let asked : UdpSessions V = record flows { server = record flows.server { hook = h' } } in
      let asked_reach = elsewhere asked.server reach_flows refl refl refl in
      let c : Config = record {
        dst_ip = id.dst_ip;
        dst_port = pos id.dst_port;
        mtu = mtu;
        relay = relay;
      } in
      let f =
        RegistersUdp-Follows k asked asked_reach slot app r.dialled c e address safe.registers in
      (
        e,
        w',
        r,
        ran,
        record {
          numbers = f.numbers;
          after = f.after;
          reached = f.reached;
          numbers_given = f.numbers_given;
          serves = f.serves;
          passed_on = f.passed_on;
          relays_begun = f.relays_begun;
        },
      )
