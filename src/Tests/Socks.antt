-- ===== src/Tests/Socks.antt =====
-- The SOCKS5 client of go/socks5.go at concrete replies. Texts are the bytes themselves.
use teapod_tun2socks.Socks.Dial.Accepted.{IsSized, host_text, dial_tcp_accepted}
use teapod_tun2socks.Socks.Dial.Associated.{udp_associate_accepted}
use teapod_tun2socks.Tests.Fixtures.{text, digits, parse}
use teapod_tun2socks.Prelude.{
  ℕ, pos, List, [], ◌∷◌, ◌≡◌, refl, ret, false, some, none, inl, length, ◌%◌, ◌++◌, be16,
}
use teapod_tun2socks.Socks.Address.{to16, destination, to4}
use teapod_tun2socks.Socks.Datagram.{encode_udp_datagram, decode_udp_datagram, decoded}
use teapod_tun2socks.Socks.Datagram.RoundTrip.{datagram_round_trip}
use teapod_tun2socks.Socks.Stream.{Conn, Out, done, set_deadline, write, read_full}
use teapod_tun2socks.Socks.Client.{
  Socks5Client, new_socks5_client, auth_request, handshake, read_socks_address,
}
use teapod_tun2socks.Socks.Client.Replies.{
  ipv4_address, healthy, password_accepted, Greeting, BindAddress, greeting, reply,
}
use teapod_tun2socks.Socks.Client.Authentication.{parse_auth, parse_field, parse_auth_truncates}
use teapod_tun2socks.Socks.Dial.{dial_tcp, udp_associate, associated, bound, request_relay}
use teapod_tun2socks.Socks.Dial.Connect.{dial_tcp_connects}
use teapod_tun2socks.Socks.Dial.Cleanup.{IsClean, dial_tcp-IsClean}

abbrev client : Socks5Client
client = new_socks5_client (127 ∷ []) (pos 1080) (117 ∷ []) (112 ∷ 119 ∷ [])

abbrev server : List ℕ
server = 1 ∷ 2 ∷ 3 ∷ 4 ∷ []

datagram_round_trip_example :
    (bytes : List ℕ) × (addr : List ℕ) × (encode_udp_datagram server (pos 53) (7 ∷ 8 ∷ [])
      ≡ ret bytes)
    × (decode_udp_datagram bytes ≡ ret (decoded addr (pos 53) (7 ∷ 8 ∷ [])))
    × (to16 addr ≡ to16 server)
datagram_round_trip_example = datagram_round_trip server (pos 53) (7 ∷ 8 ∷ []) (inl refl)

dial_tcp_connects_example :
    dial_tcp text digits parse client
      (some (
        healthy (5 ∷ 2 ∷ 1 ∷ 0 ∷ 5 ∷ 0 ∷ 0 ∷ 1 ∷ 9 ∷ 9 ∷ 9 ∷ 9 ∷ 1 ∷ 187 ∷ 72 ∷ 105 ∷ []) [] false))
      server
      (pos 443)
    ≡ some (
        done tt (
          healthy
            (72 ∷ 105 ∷ [])
            (5 ∷ 2 ∷ 0 ∷ 2 ∷ 1 ∷ 1 ∷ 117 ∷ 2 ∷ 112 ∷ 119 ∷ 5 ∷ 1 ∷ 0 ∷ 1 ∷ 1 ∷ 2 ∷ 3 ∷ 4 ∷ 1 ∷ 187
              ∷ [])
            false))
unfolding destination to4
dial_tcp_connects_example =
    dial_tcp_connects text digits parse client server server (pos 443) password_accepted 0
      (ipv4_address (9 ∷ 9 ∷ 9 ∷ 9 ∷ [])) 1 187 (72 ∷ 105 ∷ []) refl refl

-- The write of the request fails after one byte.
abbrev faulty : Conn
faulty = record (healthy (5 ∷ 0 ∷ []) [] false) { write_faults = none ∷ some 1 ∷ [] }

dial_tcp-IsClean_example :
    (out : Out (Unit {0})) × (dial_tcp text digits parse client (some faulty) server (pos 443)
      ≡ some out)
    × IsClean out
dial_tcp-IsClean_example = dial_tcp-IsClean text digits parse client faulty server (pos 443) refl

parsed : parse_auth (auth_request client) ≡ some (117 ∷ [], 112 ∷ 119 ∷ [])
unfolding parse_field
parsed = refl

parse_auth_truncates_example : length {A = ℕ} (117 ∷ []) ≡ length client.username % 256
parse_auth_truncates_example = parse_auth_truncates client (117 ∷ []) (112 ∷ 119 ∷ []) parsed

-- A proxy that asks for the password, accepts it and connects.
abbrev accepting : Conn
accepting =
    healthy (5 ∷ 2 ∷ 1 ∷ 0 ∷ 5 ∷ 0 ∷ 0 ∷ 1 ∷ 9 ∷ 9 ∷ 9 ∷ 9 ∷ 1 ∷ 187 ∷ 72 ∷ 105 ∷ []) [] false

abbrev connected : Conn
connected =
    healthy (72 ∷ 105 ∷ [])
      (5 ∷ 2 ∷ 0 ∷ 2 ∷ 1 ∷ 1 ∷ 117 ∷ 2 ∷ 112 ∷ 119 ∷ 5 ∷ 1 ∷ 0 ∷ 1 ∷ 1 ∷ 2 ∷ 3 ∷ 4 ∷ 1 ∷ 187 ∷ [])
      false

accepting-connected :
    dial_tcp text digits parse client (some accepting) server (pos 443) ≡ some (done tt connected)
unfolding destination to4
accepting-connected =
    dial_tcp_connects text digits parse client server server (pos 443) password_accepted 0
      (ipv4_address (9 ∷ 9 ∷ 9 ∷ 9 ∷ [])) 1 187 (72 ∷ 105 ∷ []) refl refl

dial_tcp_accepted_example :
    (g : Greeting) × (rsv : ℕ) × (a : BindAddress) × (hi : ℕ) × (lo : ℕ) × IsSized a
    × (accepting.incoming ≡ (greeting g ++ reply rsv a hi lo) ++ connected.incoming)
dial_tcp_accepted_example =
    dial_tcp_accepted text digits parse client accepting connected server (pos 443)
      accepting-connected

-- The same proxy, asked for an association; the relay is at its port 443.
abbrev granted : Conn
granted =
    healthy (72 ∷ 105 ∷ [])
      (5 ∷ 2 ∷ 0 ∷ 2 ∷ 1 ∷ 1 ∷ 117 ∷ 2 ∷ 112 ∷ 119 ∷ 5 ∷ 3 ∷ 0 ∷ 1 ∷ 127 ∷ 0 ∷ 0 ∷ 1 ∷ 156 ∷ 64
        ∷ [])
      false

accepting-granted :
    udp_associate text digits parse client (some accepting) (some 40000)
    ≡ some (associated (9 ∷ 9 ∷ 9 ∷ 9 ∷ 58 ∷ 443 ∷ []) granted bound)
unfolding udp_associate set_deadline handshake write read_full request_relay read_socks_address
accepting-granted = refl

udp_associate_accepted_example :
    (bound_port : ℕ) × (g : Greeting) × (rsv : ℕ) × (a : BindAddress) × (hi : ℕ) × (lo : ℕ) × (some
        40000
      ≡ some bound_port)
    × (bound ≡ bound)
    × IsSized a
    × (accepting.incoming ≡ (greeting g ++ reply rsv a hi lo) ++ granted.incoming)
    × (parse (host_text text digits a ++ (58 ∷ digits (be16 hi lo)))
        ≡ some (9 ∷ 9 ∷ 9 ∷ 9 ∷ 58 ∷ 443 ∷ []))
udp_associate_accepted_example =
    udp_associate_accepted text digits parse client accepting granted (some 40000)
      (9 ∷ 9 ∷ 9 ∷ 9 ∷ 58 ∷ 443 ∷ []) bound accepting-granted
