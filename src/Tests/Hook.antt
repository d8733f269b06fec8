-- ===== src/Tests/Hook.antt =====
-- A hook for go/engine_hook.go whose validator counts its calls and allows what goes to port 443.
use teapod_tun2socks.Prelude.{
  ℕ, suc, ◌==◌, Bool, false, List, [], ◌∷◌, ◌≡◌, refl, ret, some, ℤ, pos, negsuc,
}
use teapod_tun2socks.Key.{ConnectionKey, new_key}
use teapod_tun2socks.Hook.{EngineHook, new_hook, validate, set_validator}
use teapod_tun2socks.Hook.Interleaving.{System, Reach, here, next, change_validator, answer}
use teapod_tun2socks.Hook.Calls.{Decided, validate-Decided}

-- The text of an address, here its bytes.
abbrev text : List ℕ → List ℕ
text ip = ip

abbrev ask : Unit {0} → List ℕ → ℤ → List ℕ → ℤ → ℤ → ℕ → Bool × ℕ
ask v src src_port dst (pos dst_port) proto asked = (dst_port == 443, suc asked)
ask v src src_port dst (negsuc dst_port) proto asked = (false, suc asked)

abbrev client : List ℕ
client = 10 ∷ 0 ∷ 0 ∷ 1 ∷ []

abbrev server : List ℕ
server = 1 ∷ 2 ∷ 3 ∷ 4 ∷ []

abbrev flow : ConnectionKey
flow = new_key text client 40000 server 443 6

-- A state in which a goroutine has just stored the answer to a flow.
abbrev asked_before : System Unit ℕ
asked_before = record {
  hook = record (new_hook (pos 2) (pos 60)) { validator = some tt };
  calls = record { validator = tt; key = flow; world = 3 } ∷ [];
}

asked_before-Reach : Reach ask (pos 2) (pos 60) asked_before
unfolding set_validator
asked_before-Reach = next (next here (change_validator (some tt))) (answer flow tt 3 refl)

validate-Decided_example :
    (h' : EngineHook Unit) × (d : Bool × ℤ) × (w' : ℕ) × (validate text ask asked_before.hook client
        40000 server 443 6
        (pos 5)
        (pos 6)
        4
      ≡ ret (h', d, w'))
    × ((t : System Unit ℕ) × Reach ask (pos 2) (pos 60) t
        × (t.hook ≡ h')
        × Decided ask flow asked_before (pos 5) 4 d w' t)
validate-Decided_example =
    validate-Decided text ask client 40000 server 443 6 asked_before (pos 5) (pos 6) 4
      asked_before-Reach
