-- ===== src/Engine/UdpSessions/Steps.antt =====
-- What the steps of a relay keep.
use teapod_tun2socks.Engine.Relay.Closing.{IsSettled}
use teapod_tun2socks.Prelude.{
  ℕ, ◌≡◌, refl, List, Bool, true, false, Option, none, some, Go, ret, panic, arith, ◌∙◌,
}
use teapod_tun2socks.Engine.Pipe.Runs.{Ensures}
use teapod_tun2socks.Engine.Relay.{
  UdpAddr, Config, Stage, looping, leaving, left, Udp, send_round, receive_round, monitoring, stage,
  set_stage, leave, finish, Goroutine, sending, receiving, shutdown,
}
use teapod_tun2socks.Engine.Relay.Runs
use teapod_tun2socks.Engine.UdpSessions.{
  RelayMove, asks, hears, app_fails, socket_fails, control_ends, returns, leaves, when_looping,
  when_leaving, when_left, relay_step,
}

-- A state that `pipeUDP` can reach.
abbrev pub IsReached : Config → Udp → Type 0
IsReached c f =
    (asked : List (List ℕ)) × (heard : List (List ℕ × Option UdpAddr)) × Runs.Reach c asked heard f

when_looping_lem :
    (P : Udp → Type 0) (st : Stage) (m : Go Udp)
    → ((g : Udp) → st ≡ looping → m ≡ ret g → P g)
    → Ensures (when_looping st m) P
when_looping_lem P looping (ret g) h = h g refl refl
when_looping_lem P looping panic h = tt
when_looping_lem P leaving m h = tt
when_looping_lem P left m h = tt

when_leaving_lem :
    (P : Udp → Type 0) (st : Stage) (g : Udp) → (st ≡ leaving → P g) → Ensures (when_leaving st g) P
when_leaving_lem P looping g h = tt
when_leaving_lem P leaving g h = h refl
when_leaving_lem P left g h = tt

when_left_lem :
    (P : Udp → Type 0) (s r : Stage) (returned : Bool) (g : Udp)
    → (s ≡ left → r ≡ left → returned ≡ false → P g)
    → Ensures (when_left s r returned g) P
when_left_lem P left left false g h = h refl refl refl
when_left_lem P s r returned g h = tt

pub relay_step-IsReached :
    (c : Config) (m : RelayMove) (f : Udp)
    → IsReached c f
    → Ensures (relay_step c m f) (IsReached c)
unfolding relay_step
relay_step-IsReached c (asks packet ok) f (_, _, r) =
    when_looping_lem (IsReached c) f.sender (send_round c (some packet) ok f)
      (λ g loops ran. (_, _, Runs.asks packet ok r loops ran))
relay_step-IsReached c (app_fails ok) f (_, _, r) =
    when_looping_lem (IsReached c) f.sender (send_round c none ok f)
      (λ g loops ran. (_, _, Runs.app_fails ok r loops ran))
relay_step-IsReached c (hears packet from ok) f (_, _, r) =
    when_looping_lem (IsReached c) f.receiver (receive_round c (some (packet, from)) ok f)
      (λ g loops ran. (_, _, Runs.hears packet from ok r loops ran))
relay_step-IsReached c (socket_fails ok) f (_, _, r) =
    when_looping_lem (IsReached c) f.receiver (receive_round c none ok f)
      (λ g loops ran. (_, _, Runs.socket_fails ok r loops ran))
relay_step-IsReached c control_ends f (asked, heard, r) =
    when_looping_lem (IsReached c) f.monitor (ret (set_stage monitoring leaving f)) (λ g loops ran.
      let same : set_stage monitoring leaving f ≡ g = cc ran in
      (asked, heard, rw (← same) (Runs.control_ends r loops)))
relay_step-IsReached c (leaves who) f (_, _, r) =
    when_leaving_lem (IsReached c) (stage who f) (leave who f)
      (λ now. (_, _, Runs.leaves who r now))
relay_step-IsReached c returns f (_, _, r) =
    when_left_lem (IsReached c) f.sender f.receiver f.returned (finish f)
      (λ hs hr runs. (_, _, Runs.finished r hs hr runs))

leave-returned : (who : Goroutine) (f : Udp) → (leave who f).returned ≡ f.returned
unfolding leave shutdown
leave-returned sending f = ground arith
leave-returned receiving f = ground arith
leave-returned monitoring f = ground arith

-- `pipeUDP` returns once; only the monitor and the ends of goroutines may come after.
pub relay_step-returned :
    (c : Config) (m : RelayMove) (f : Udp)
    → IsSettled f
    → f.returned ≡ true
    → Ensures (relay_step c m f) (λ g. g.returned ≡ true)
unfolding relay_step
relay_step-returned c (asks packet ok) f v over =
    when_looping_lem (λ g. g.returned ≡ true) f.sender (send_round c (some packet) ok f)
      (λ g loops ran. absurd (cc (loops, (v.in_the_end over).0)))
relay_step-returned c (app_fails ok) f v over =
    when_looping_lem (λ g. g.returned ≡ true) f.sender (send_round c none ok f)
      (λ g loops ran. absurd (cc (loops, (v.in_the_end over).0)))
relay_step-returned c (hears packet from ok) f v over =
    when_looping_lem (λ g. g.returned ≡ true) f.receiver
      (receive_round c (some (packet, from)) ok f)
      (λ g loops ran. absurd (cc (loops, (v.in_the_end over).1)))
relay_step-returned c (socket_fails ok) f v over =
    when_looping_lem (λ g. g.returned ≡ true) f.receiver (receive_round c none ok f)
      (λ g loops ran. absurd (cc (loops, (v.in_the_end over).1)))
relay_step-returned c control_ends f v over =
    when_looping_lem (λ g. g.returned ≡ true) f.monitor (ret (set_stage monitoring leaving f))
      (λ g loops ran. let same : set_stage monitoring leaving f ≡ g = cc ran in rw (← same) over)
relay_step-returned c (leaves who) f v over =
    when_leaving_lem (λ g. g.returned ≡ true) (stage who f) (leave who f)
      (λ now. leave-returned who f ∙ over)
relay_step-returned c returns f v over =
    when_left_lem (λ g. g.returned ≡ true) f.sender f.receiver f.returned (finish f)
      (λ hs hr runs. absurd (cc (runs, over)))
