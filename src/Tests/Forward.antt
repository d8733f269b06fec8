-- ===== src/Tests/Forward.antt =====
-- The forwarders of go/engine.go with a validator that allows what goes to port 443.
use teapod_tun2socks.Tests.Fixtures.{text, digits, parse, client, web, proxy, proxy_open}
use teapod_tun2socks.Prelude.{
  ℕ, suc, ◌==◌, ◌≡◌, ◌≢◌, refl, ℤ, pos, negsuc, List, [], Bool, true, false, Option, none, some,
  ret,
}
use teapod_tun2socks.Key.{new_key, protocol_tcp, protocol_udp}
use teapod_tun2socks.Hook.{EngineHook, new_hook, set_validator}
use teapod_tun2socks.Hook.Interleaving.{System, Answered, here, next, change_validator}
use teapod_tun2socks.Hook.Interleaving
use teapod_tun2socks.Hook.Calls.{IsLogged}
use teapod_tun2socks.Socks.Stream.{Out}
use teapod_tun2socks.Socks.Dial.{Association}
use teapod_tun2socks.Engine.Forward.{Server, Handled, handle_tcp, handle_udp}
use teapod_tun2socks.Engine.Forward.Tcp.{IsSafe, handle_tcp-IsSafe}
use teapod_tun2socks.Engine.Forward.Udp.{IsSafeUdp, handle_udp-IsSafeUdp}

abbrev ask : Unit {0} → List ℕ → ℤ → List ℕ → ℤ → ℤ → ℕ → Bool × ℕ
ask v src src_port dst (pos dst_port) proto asked = (dst_port == 443, suc asked)
ask v src src_port dst (negsuc dst_port) proto asked = (false, suc asked)

abbrev guarded : System Unit ℕ
guarded = record { hook = record (new_hook (pos 2) (pos 60)) { validator = some tt }; calls = [] }

guarded-Reach : Interleaving.Reach ask (pos 2) (pos 60) guarded
unfolding set_validator
guarded-Reach = next here (change_validator (some tt))

-- A server whose read loop has reserved a slot for a UDP flow.
abbrev serving : Server Unit
serving = record {
  hook = guarded.hook;
  conns = [];
  udp_conns = [];
  conns_seq = 0;
  active_conns = pos 0;
  active_udp_conns = pos 1;
  socks_dial_fails = 0;
}

handle_tcp-IsSafe_example :
    (e' : Server Unit) × (w' : ℕ) × (r : Handled (Option (Out (Unit {0})))) × (h' : EngineHook Unit)
    × (t : System Unit ℕ) × (handle_tcp text digits ask parse client
          (some 7)
          web
          (pos 5)
          (pos 6)
          (some proxy)
          0
          serving
        ≡ ret (e', w', r))
    × IsSafe (some 7) (record serving { hook = h' }) e' r
    × Interleaving.Reach ask (pos 2) (pos 60) t
    × (t.hook ≡ h')
    × (r.dialled ≢ none
        → Answered ask
            (new_key text web.src_ip web.src_port web.dst_ip web.dst_port protocol_tcp)
            true
            t.calls)
    × IsLogged ask
        (new_key text web.src_ip web.src_port web.dst_ip web.dst_port protocol_tcp)
        guarded
        0
        w'
        t
handle_tcp-IsSafe_example =
    handle_tcp-IsSafe text digits ask guarded serving guarded-Reach refl parse client (some 7) web
      (pos 5) (pos 6) (some proxy) 0 proxy_open

handle_udp-IsSafeUdp_example :
    (e' : Server Unit) × (w' : ℕ) × (r : Handled (Option (Association (List ℕ)))) × (h' : EngineHook
      Unit)
    × (t : System Unit ℕ) × (handle_udp text digits ask parse client
          (some 7)
          web
          (pos 5)
          (pos 6)
          (some proxy)
          (some 50000)
          0
          serving
        ≡ ret (e', w', r))
    × IsSafeUdp (some 7) (record serving { hook = h' }) e' r
    × Interleaving.Reach ask (pos 2) (pos 60) t
    × (t.hook ≡ h')
    × (r.dialled ≢ none
        → Answered ask
            (new_key text web.src_ip web.src_port web.dst_ip web.dst_port protocol_udp)
            true
            t.calls)
    × IsLogged ask
        (new_key text web.src_ip web.src_port web.dst_ip web.dst_port protocol_udp)
        guarded
        0
        w'
        t
handle_udp-IsSafeUdp_example =
    handle_udp-IsSafeUdp text digits ask parse guarded serving guarded-Reach refl client (some 7)
      web (pos 5) (pos 6) (some proxy) (some 50000) 0 proxy_open
