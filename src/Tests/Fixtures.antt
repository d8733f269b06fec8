-- ===== src/Tests/Fixtures.antt =====
-- A proxy and a validator for the tests: the text of an address is its bytes.
use teapod_tun2socks.Prelude.{
  ℕ, suc, ℤ, pos, List, [], ◌∷◌, ◌≡◌, refl, Bool, true, false, Option, some,
}
use teapod_tun2socks.Hook.{EngineHook, new_hook, set_validator}
use teapod_tun2socks.Hook.Interleaving.{System, change_validator}
use teapod_tun2socks.Hook.Interleaving
use teapod_tun2socks.Socks.Stream.{Conn}
use teapod_tun2socks.Socks.Client.{Socks5Client, new_socks5_client}
use teapod_tun2socks.Socks.Client.Replies.{healthy}
use teapod_tun2socks.Engine.Relay.{Config}
use teapod_tun2socks.Engine.Forward.{FlowId}

abbrev pub hook : EngineHook Unit
hook = set_validator (new_hook (pos 2) (pos 60)) (some tt)

-- A validator that allows every flow, and a proxy that accepts the request.
abbrev pub text : List ℕ → List ℕ
text b = b

abbrev pub digits : ℕ → List ℕ
digits n = n ∷ []

abbrev pub parse : List ℕ → Option (List ℕ)
parse b = some b

abbrev pub ask : Unit {0} → List ℕ → ℤ → List ℕ → ℤ → ℤ → ℕ → Bool × ℕ
ask v src src_port dst dst_port proto asked = (true, suc asked)

abbrev pub client : Socks5Client
client = new_socks5_client (127 ∷ []) (pos 1080) [] []

abbrev pub web : FlowId
web = record {
  src_ip = 10 ∷ 0 ∷ 0 ∷ 1 ∷ [];
  src_port = 40000;
  dst_ip = 1 ∷ 2 ∷ 3 ∷ 4 ∷ [];
  dst_port = 443;
}

abbrev pub guarded : System Unit ℕ
guarded = record { hook = hook; calls = [] }

pub guarded-Reach : Interleaving.Reach ask (pos 2) (pos 60) guarded
unfolding set_validator
guarded-Reach = Interleaving.next Interleaving.here (change_validator (some tt))

abbrev pub proxy : Conn
proxy = healthy (5 ∷ 0 ∷ 5 ∷ 0 ∷ 0 ∷ 1 ∷ 9 ∷ 9 ∷ 9 ∷ 9 ∷ 1 ∷ 187 ∷ []) [] false

pub proxy_open : (c : Conn) → some proxy ≡ some c → c.closed ≡ false
proxy_open c h = let same : proxy ≡ c = cc h in rw (← same) refl

abbrev pub dns : Config
dns = record {
  dst_ip = 9 ∷ 9 ∷ 9 ∷ 9 ∷ [];
  dst_port = pos 53;
  mtu = 1500;
  relay = record { ip = 127 ∷ 0 ∷ 0 ∷ 1 ∷ []; port = 1080 };
}
