-- ===== src/Engine/Forward.antt =====
-- go/engine.go, `handleTCPForwarder` and `handleUDPForwarder`, over the hook, the SOCKS5 client and
-- the tables of the flows. The gVisor stack is outside: it gives a handle for the app's end, or
-- none if `CreateEndpoint` fails.
pub mod Table
pub mod Tcp
pub mod Udp
pub mod Tracking
pub mod Closing
use teapod_tun2socks.Prelude.{
  ℕ, ◌+◌, ◌%◌, ℤ, pos, List, [], ◌∷◌, Bool, true, false, not, Option, none, some, Go, ret, ◌>>=◌,
  if◌then◌else◌, ◌+ℤ◌, ◌-ℤ◌, wrap_i64, leb_ℤ,
}
use teapod_tun2socks.Key.{protocol_tcp, protocol_udp}
use teapod_tun2socks.Hook.{EngineHook, validate}
use teapod_tun2socks.Socks.Stream.{Conn, Out, done, failed, SocksError}
use teapod_tun2socks.Socks.Client.{Socks5Client}
use teapod_tun2socks.Socks.Dial.{dial_tcp, udp_associate, Association, associated, gave_up, Socket}
use Table.{track, untrack}

-- The part of `Engine` that the forwarders use. The tables hold the handles of the app's ends by
-- the numbers that `connsSeq` gives.
pub record Server (V : Type 0) : Type 0 where
  pub hook : EngineHook V
  pub conns : List (ℕ × ℕ)
  pub udp_conns : List (ℕ × ℕ)
  pub conns_seq : ℕ
  pub active_conns : ℤ
  pub active_udp_conns : ℤ
  pub socks_dial_fails : ℕ

-- The server of a new engine.
abbrev pub new_server : {V : Type 0} → EngineHook V → Server V
new_server hook = record {
  hook = hook;
  conns = [];
  udp_conns = [];
  conns_seq = 0;
  active_conns = pos 0;
  active_udp_conns = pos 0;
  socks_dial_fails = 0;
}

-- The flow that the request is for: the phone is the source.
pub record FlowId : Type 0 where
  pub src_ip : List ℕ
  pub src_port : ℕ
  pub dst_ip : List ℕ
  pub dst_port : ℕ

-- What becomes of the request. `completes` are the arguments of the calls of `Complete`,
-- `app_closes` counts the calls of `Close` on the app's end. `dialled` is what the SOCKS5 client
-- returned, if it was called. `started` is the number of the flow, if it was started.
pub record Handled (D : Type 0) : Type 0 where
  pub completes : List Bool
  pub app_closes : ℕ
  pub dialled : Option D
  pub started : Option ℕ

-- `e.connsSeq.Add(1)`, `e.socksDialFails.Add(1)`
abbrev pub next_id : {V : Type 0} → Server V → ℕ
next_id e = (e.conns_seq + 1) % 18446744073709551616

abbrev pub dial_failed : {V : Type 0} → Server V → Server V
dial_failed e = record e { socks_dial_fails = (e.socks_dial_fails + 1) % 18446744073709551616 }

-- `e.trackConn(connID, tc)` and `e.trackUDPConn(connID, gonetConn)`, each under a new number
unfoldable pub track_tcp : {V : Type 0} → ℕ → Server V → Server V
track_tcp app e = record e { conns_seq = next_id e; conns = track (next_id e) app e.conns }

unfoldable pub track_udp : {V : Type 0} → ℕ → Server V → Server V
track_udp app e = record e { conns_seq = next_id e; udp_conns = track (next_id e) app e.udp_conns }

-- `e.untrackConn(connID)`, `e.untrackUDPConn(connID)`
unfoldable pub untrack_tcp : {V : Type 0} → ℕ → Server V → Server V
untrack_tcp id e = record e { conns = untrack id e.conns }

unfoldable pub untrack_udp : {V : Type 0} → ℕ → Server V → Server V
untrack_udp id e = record e { udp_conns = untrack id e.udp_conns }

-- `e.activeConns.Add(1)` and `e.activeConns.Add(-1)`
unfoldable pub count_tcp : {V : Type 0} → Server V → Server V
unfolding wrap_i64
count_tcp e = record e { active_conns = wrap_i64 (e.active_conns +ℤ pos 1) }

unfoldable pub uncount_tcp : {V : Type 0} → Server V → Server V
unfolding wrap_i64
uncount_tcp e = record e { active_conns = wrap_i64 (e.active_conns -ℤ pos 1) }

-- `maxUDPConns`
abbrev pub max_udp_conns : ℕ
max_udp_conns = 512

-- The callback of the UDP forwarder: `e.activeUDPConns.Add(1)`, and whether the cap is kept
unfoldable pub reserve_slot : {V : Type 0} → Server V → Server V × Bool
unfolding wrap_i64
reserve_slot e =
    let active = wrap_i64 (e.active_udp_conns +ℤ pos 1) in
    (record e { active_udp_conns = active }, leb_ℤ active (pos max_udp_conns))

-- `e.activeUDPConns.Add(-1)`
unfoldable pub release_slot : {V : Type 0} → Server V → Server V
unfolding wrap_i64
release_slot e = record e { active_udp_conns = wrap_i64 (e.active_udp_conns -ℤ pos 1) }

-- `ActiveConns`
unfoldable pub active_conns_of : {V : Type 0} → Server V → ℤ
unfolding wrap_i64
active_conns_of e = wrap_i64 (e.active_conns +ℤ e.active_udp_conns)

module _ (ip_text : List ℕ → List ℕ) (decimal : ℕ → List ℕ) {V W : Type 0}
    (ask : V → List ℕ → ℤ → List ℕ → ℤ → ℤ → W → Bool × W) where
  -- After the dial of `handleTCPForwarder`; `none` if the proxy cannot be dialled.
  unfoldable pub after_dial :
      ℕ → Option (Out (Unit {0})) → Server V → Server V × Handled (Option (Out (Unit {0})))
  unfolding count_tcp track_tcp
  after_dial app none e = (
    dial_failed e,
    record { completes = false ∷ []; app_closes = 1; dialled = some none; started = none },
  )
  after_dial app (some (failed err c)) e = (
    dial_failed e,
    record {
      completes = false ∷ [];
      app_closes = 1;
      dialled = some (some (failed err c));
      started = none;
    },
  )
  after_dial app (some (done _ c)) e = (
    count_tcp (track_tcp app e),
    record {
      completes = false ∷ [];
      app_closes = 0;
      dialled = some (some (done tt c));
      started = some (next_id e);
    },
  )

  -- `handleTCPForwarder` up to the start of the pipes. `proxy` is the outcome of the dial of the
  -- proxy; `t1` and `t2` are the times at which the hook reads and writes its cache.
  unfoldable pub handle_tcp :
      (List ℕ → Option (List ℕ))
      → Socks5Client
      → Option ℕ
      → FlowId
      → ℤ
      → ℤ
      → Option Conn
      → W
      → Server V
      → Go (Server V × W × Handled (Option (Out (Unit {0}))))
  unfolding after_dial
  handle_tcp parse_ip s none id t1 t2 proxy w e =
      ret (e, w, record { completes = true ∷ []; app_closes = 0; dialled = none; started = none })
  handle_tcp parse_ip s (some app) id t1 t2 proxy w e = do
    (h, (allowed, _), w) ←
        validate ip_text ask e.hook id.src_ip id.src_port id.dst_ip id.dst_port protocol_tcp t1 t2 w
    let e = record e { hook = h }
    if not allowed
        then ret (
          e,
          w,
          record { completes = false ∷ []; app_closes = 1; dialled = none; started = none },
        )
        else (do
          let (e, handled) =
              after_dial app
                (dial_tcp ip_text decimal parse_ip s proxy (ip_text id.dst_ip) (pos id.dst_port)) e
          ret (e, w, handled))

  module _ {R : Type 0} (resolve : List ℕ → Option R) where
    -- After `UDPAssociate` in `handleUDPForwarder`, up to the relay.
    unfoldable pub after_associate :
        ℕ → Option (Association R) → Server V → Server V × Handled (Option (Association R))
    unfolding release_slot track_udp
    after_associate app none e = (
      release_slot (dial_failed e),
      record { completes = []; app_closes = 1; dialled = some none; started = none },
    )
    after_associate app (some (gave_up err c socket)) e = (
      release_slot (dial_failed e),
      record {
        completes = [];
        app_closes = 1;
        dialled = some (some (gave_up err c socket));
        started = none;
      },
    )
    after_associate app (some (associated relay c socket)) e = (
      track_udp app e,
      record {
        completes = [];
        app_closes = 0;
        dialled = some (some (associated relay c socket));
        started = some (next_id e);
      },
    )

    -- `handleUDPForwarder` up to the relay, or to its end if there is none. `listen` is the port of
    -- the new socket, if there is one. A UDP request needs no `Complete`.
    unfoldable pub handle_udp :
        Socks5Client
        → Option ℕ
        → FlowId
        → ℤ
        → ℤ
        → Option Conn
        → Option ℕ
        → W
        → Server V
        → Go (Server V × W × Handled (Option (Association R)))
    unfolding after_associate
    handle_udp s none id t1 t2 proxy listen w e = ret (
      release_slot e,
      w,
      record { completes = []; app_closes = 0; dialled = none; started = none },
    )
    handle_udp s (some app) id t1 t2 proxy listen w e = do
      (h, (allowed, _), w) ←
          validate ip_text ask e.hook id.src_ip id.src_port id.dst_ip id.dst_port protocol_udp t1 t2
            w
      let e = record e { hook = h }
      if not allowed
          then ret (
            release_slot e,
            w,
            record { completes = []; app_closes = 1; dialled = none; started = none },
          )
          else (do
            let (e, handled) =
                after_associate app (udp_associate ip_text decimal resolve s proxy listen) e
            ret (e, w, handled))
