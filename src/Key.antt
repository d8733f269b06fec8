-- ===== src/Key.antt =====
-- go/connection.go: `ConnectionKey`, `NewConnectionKey`, `String` and `itoa`. A Go string is the
-- list of its bytes. `net.IP.String` is a parameter: the text of an address.
pub mod Decimal
use Prim.Native.String.{String}
use Prim.Native.Char.{code}
use native.Mathlib.Decide.{ℕ_discrete}
use mathlib.Core.List.{List-discrete}
use teapod_tun2socks.Prelude.{ℕ, List, [], ◌∷◌, ◌++◌, ◌==◌, if◌then◌else◌, Go, ret, ◌>>=◌}
use Decimal.{itoa}

-- `ProtocolTCP`, `ProtocolUDP`, `ProtocolICMP`, `ProtocolICMPv6`
abbrev pub protocol_tcp : ℕ
protocol_tcp = 6

abbrev pub protocol_udp : ℕ
protocol_udp = 17

abbrev pub protocol_icmp : ℕ
protocol_icmp = 1

abbrev pub protocol_icmpv6 : ℕ
protocol_icmpv6 = 58

-- `ConnectionKey`
pub record ConnectionKey : Type 0 where
  pub src_ip : List ℕ
  pub src_port : ℕ
  pub dst_ip : List ℕ
  pub dst_port : ℕ
  pub proto : ℕ

-- `==` on keys
unfoldable pub ConnectionKey-discrete : Discrete ConnectionKey
unfolding ℕ_discrete
ConnectionKey-discrete = hlevel ℕ_discrete

-- The bytes of an ASCII text.
abbrev pub codes : String → List ℕ
codes String.[] = []
codes (String.◌∷◌ c s) = code c ∷ codes s

-- `NewConnectionKey`, for the text `ip_text` of an address
abbrev pub new_key : (List ℕ → List ℕ) → List ℕ → ℕ → List ℕ → ℕ → ℕ → ConnectionKey
new_key ip_text src_ip src_port dst_ip dst_port proto = record {
  src_ip = ip_text src_ip;
  src_port = src_port;
  dst_ip = ip_text dst_ip;
  dst_port = dst_port;
  proto = proto;
}

proto_text : ℕ → List ℕ
proto_text proto =
    if proto == protocol_tcp
    then codes "tcp"
    else if proto == protocol_udp
    then codes "udp"
    else codes "unknown"

-- `String`
unfoldable pub to_string : ConnectionKey → Go (List ℕ)
unfolding proto_text
to_string k = do
  src_port ← itoa k.src_port
  dst_port ← itoa k.dst_port
  ret (
      proto_text k.proto
      ++ (codes "://"
          ++ (k.src_ip
              ++ (codes ":"
                  ++ (src_port ++ (codes "-" ++ (k.dst_ip ++ (codes ":" ++ dst_port))))))))
