-- ===== src/Engine/Relay/Runs.antt =====
-- Every interleaving of the goroutines of `pipeUDP`.
use teapod_tun2socks.Prelude.{ℕ, ◌≡◌, List, [], ◌∷◌, ◌++◌, Bool, false, Option, none, some, ret}
use teapod_tun2socks.Engine.Relay.{
  UdpAddr, Config, looping, leaving, left, Udp, new_udp, send_round, receive_round, Goroutine,
  monitoring, stage, set_stage, leave, finish,
}

-- The states that are reached when the app has handed over `asked` and the socket has heard
-- `heard`.
pub data Reach (c : Config) : List (List ℕ) → List (List ℕ × Option UdpAddr) → Udp → Type 0 where
  started : Reach c [] [] new_udp
  asks :
      {asked : List (List ℕ)} {heard : List (List ℕ × Option UdpAddr)} {f g : Udp} (packet : List ℕ)
      (ok : Bool)
      → Reach c asked heard f
      → f.sender ≡ looping
      → send_round c (some packet) ok f ≡ ret g
      → Reach c (asked ++ (packet ∷ [])) heard g
  app_fails :
      {asked : List (List ℕ)} {heard : List (List ℕ × Option UdpAddr)} {f g : Udp} (ok : Bool)
      → Reach c asked heard f
      → f.sender ≡ looping
      → send_round c none ok f ≡ ret g
      → Reach c asked heard g
  hears :
      {asked : List (List ℕ)} {heard : List (List ℕ × Option UdpAddr)} {f g : Udp} (packet : List ℕ)
      (from : Option UdpAddr) (ok : Bool)
      → Reach c asked heard f
      → f.receiver ≡ looping
      → receive_round c (some (packet, from)) ok f ≡ ret g
      → Reach c asked (heard ++ ((packet, from) ∷ [])) g
  socket_fails :
      {asked : List (List ℕ)} {heard : List (List ℕ × Option UdpAddr)} {f g : Udp} (ok : Bool)
      → Reach c asked heard f
      → f.receiver ≡ looping
      → receive_round c none ok f ≡ ret g
      → Reach c asked heard g
  control_ends :
      {asked : List (List ℕ)} {heard : List (List ℕ × Option UdpAddr)} {f : Udp}
      → Reach c asked heard f
      → f.monitor ≡ looping
      → Reach c asked heard (set_stage monitoring leaving f)
  leaves :
      {asked : List (List ℕ)} {heard : List (List ℕ × Option UdpAddr)} {f : Udp} (who : Goroutine)
      → Reach c asked heard f
      → stage who f ≡ leaving
      → Reach c asked heard (leave who f)
  finished :
      {asked : List (List ℕ)} {heard : List (List ℕ × Option UdpAddr)} {f : Udp}
      → Reach c asked heard f
      → f.sender ≡ left
      → f.receiver ≡ left
      → f.returned ≡ false
      → Reach c asked heard (finish f)
