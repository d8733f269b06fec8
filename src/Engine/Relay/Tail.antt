-- ===== src/Engine/Relay/Tail.antt =====
-- The steps of `pipeUDP` after its `shutdown`. `net.Conn` promises that a read of a closed connection
-- fails; a loop may still be in a round whose read came before the close.
use teapod_tun2socks.Prelude.{ℕ, suc, ◌≡◌, List, Bool, true, false, Option, none, some, ret}
use teapod_tun2socks.Engine.Relay.{
  UdpAddr, Config, looping, leaving, left, Udp, send_round, receive_round, Goroutine, monitoring,
  stage, set_stage, leave, finish,
}
use teapod_tun2socks.Engine.Relay.Runs

-- The flow, and whether each loop is in a round whose read came before the close.
pub record Tail : Type 0 where
  pub flow : Udp
  pub sender_busy : Bool
  pub receiver_busy : Bool

-- A step after the close.
pub data Step (c : Config) : Tail → Tail → Type 0 where
  sends :
      {t : Tail} {g : Udp} (packet : List ℕ) (ok : Bool)
      → t.sender_busy ≡ true
      → t.flow.sender ≡ looping
      → send_round c (some packet) ok t.flow ≡ ret g
      → Step c t (record t { flow = g; sender_busy = false })
  app_fails :
      {t : Tail} {g : Udp} (ok : Bool)
      → t.sender_busy ≡ false
      → t.flow.sender ≡ looping
      → send_round c none ok t.flow ≡ ret g
      → Step c t (record t { flow = g })
  receives :
      {t : Tail} {g : Udp} (packet : List ℕ) (from : Option UdpAddr) (ok : Bool)
      → t.receiver_busy ≡ true
      → t.flow.receiver ≡ looping
      → receive_round c (some (packet, from)) ok t.flow ≡ ret g
      → Step c t (record t { flow = g; receiver_busy = false })
  socket_fails :
      {t : Tail} {g : Udp} (ok : Bool)
      → t.receiver_busy ≡ false
      → t.flow.receiver ≡ looping
      → receive_round c none ok t.flow ≡ ret g
      → Step c t (record t { flow = g })
  control_ends :
      {t : Tail}
      → t.flow.monitor ≡ looping
      → Step c t (record t { flow = set_stage monitoring leaving t.flow })
  leaves :
      {t : Tail} (who : Goroutine)
      → stage who t.flow ≡ leaving
      → Step c t (record t { flow = leave who t.flow })
  returns :
      {t : Tail}
      → t.flow.sender ≡ left
      → t.flow.receiver ≡ left
      → t.flow.returned ≡ false
      → Step c t (record t { flow = finish t.flow })

pub data Run (c : Config) : Tail → ℕ → Tail → Type 0 where
  stop : {t : Tail} → Run c t 0 t
  more : {t u v : Tail} {n : ℕ} → Step c t u → Run c u n v → Run c t (suc n) v

-- The steps are steps of `pipeUDP`.
abbrev pub IsReached : Config → Udp → Type 0
IsReached c f =
    (asked : List (List ℕ)) × (heard : List (List ℕ × Option UdpAddr)) × Runs.Reach c asked heard f

Step-IsReached : {c : Config} {t u : Tail} → IsReached c t.flow → Step c t u → IsReached c u.flow
Step-IsReached (_, _, r) (sends packet ok busy loops ran) = (_, _, Runs.asks packet ok r loops ran)
Step-IsReached (_, _, r) (app_fails ok idle loops ran) = (_, _, Runs.app_fails ok r loops ran)
Step-IsReached (_, _, r) (receives packet from ok busy loops ran) =
    (_, _, Runs.hears packet from ok r loops ran)
Step-IsReached (_, _, r) (socket_fails ok idle loops ran) = (_, _, Runs.socket_fails ok r loops ran)
Step-IsReached (_, _, r) (control_ends loops) = (_, _, Runs.control_ends r loops)
Step-IsReached (_, _, r) (leaves who leaving_now) = (_, _, Runs.leaves who r leaving_now)
Step-IsReached (_, _, r) (returns hs hr running) = (_, _, Runs.finished r hs hr running)

pub Run-IsReached :
    {c : Config} {t u : Tail} {n : ℕ} → IsReached c t.flow → Run c t n u → IsReached c u.flow
Run-IsReached r stop = r
Run-IsReached r (more s rest) = Run-IsReached (Step-IsReached r s) rest
