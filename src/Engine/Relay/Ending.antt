-- ===== src/Engine/Relay/Ending.antt =====
-- The end of `pipeUDP` after its `shutdown`.
use teapod_tun2socks.Prelude.{
  ℕ, ◌+◌, ◌<◌, ◌≤◌, ◌≡◌, refl, sym, ◌∙◌, List, [], Bool, true, false, Option, none, ret-injective,
  ◌⊎◌, inl, inr, Bool-cases, arith,
}
use teapod_tun2socks.Engine.Relay.{
  UdpAddr, Config, Stage, looping, leaving, left, Udp, send_round, receive_round, Goroutine,
  sending, receiving, monitoring, stage, shutdown, leave, finish,
}
use teapod_tun2socks.Engine.Relay.Runs
use teapod_tun2socks.Engine.Relay.Closing.{IsSettled, relay_settles}
use teapod_tun2socks.Engine.Relay.Tail.{
  Tail, Step, sends, app_fails, receives, socket_fails, control_ends, leaves, returns, Run, stop,
  more, Run-IsReached,
}
use teapod_tun2socks.Engine.Relay.Rounds.{receive_round-Received, send_round-Forwarded}
use teapod_tun2socks.Socks.Datagram.RoundTrip.{IsAddress}

-- The steps that are left at most.
abbrev stage_weight : Stage → ℕ
stage_weight looping = 2
stage_weight leaving = 1
stage_weight left = 0

abbrev busy_weight : Bool → ℕ
busy_weight true = 1
busy_weight false = 0

abbrev return_weight : Bool → ℕ
return_weight true = 0
return_weight false = 1

abbrev tail_weight : Tail → ℕ
tail_weight t =
    stage_weight t.flow.sender
    + stage_weight t.flow.receiver
    + stage_weight t.flow.monitor
    + busy_weight t.sender_busy
    + busy_weight t.receiver_busy
    + return_weight t.flow.returned

leave-Falls :
    (who : Goroutine) (t : Tail)
    → stage who t.flow ≡ leaving
    → tail_weight (record t { flow = leave who t.flow }) < tail_weight t
unfolding leave shutdown
leave-Falls sending t h = ground arith
leave-Falls receiving t h = ground arith
leave-Falls monitoring t h = ground arith

finish-Falls :
    (t : Tail)
    → t.flow.returned ≡ false
    → tail_weight (record t { flow = finish t.flow }) < tail_weight t
unfolding finish shutdown
finish-Falls t h = ground arith

Step-Falls :
    {c : Config} {t u : Tail} → IsAddress c.dst_ip → Step c t u → tail_weight u < tail_weight t
unfolding send_round receive_round
Step-Falls {c} h (sends {t} {g} packet ok busy loops ran) =
    let (g', ran', forwarded) = send_round-Forwarded c packet ok t.flow h in
    let same : g' ≡ g = ret-injective g' g (sym ran' ∙ ran) in
    rw (← same) (elim forwarded [
      | inl (bytes, _, becomes) ↦ rw (becomes, busy) (omega arith)
      | inr becomes ↦ rw (becomes, busy, loops) (omega arith)
    ])
Step-Falls {c} h (app_fails {t} {g} ok idle loops ran) =
    rw (← ret-injective _ _ ran, loops) (omega arith)
Step-Falls {c} h (receives {t} {g} packet from ok busy loops ran) =
    let (g', ran', received) = receive_round-Received c packet from ok t.flow in
    let same : g' ≡ g = ret-injective g' g (sym ran' ∙ ran) in
    rw (← same) (elim received [
      | inl becomes ↦ rw (becomes, busy) (omega arith)
      | inr becomes ↦ rw (becomes, busy, loops) (omega arith)
    ])
Step-Falls {c} h (socket_fails {t} {g} ok idle loops ran) =
    rw (← ret-injective _ _ ran, loops) (omega arith)
Step-Falls {c} h (control_ends {t} loops) = rw loops (omega arith)
Step-Falls {c} h (leaves {t} who leaving_now) = leave-Falls who t leaving_now
Step-Falls {c} h (returns {t} hs hr running) = finish-Falls t running

Run-tail_weight :
    {c : Config} {t u : Tail} {n : ℕ}
    → IsAddress c.dst_ip
    → Run c t n u
    → n + tail_weight u ≤ tail_weight t
Run-tail_weight h stop = omega arith
Run-tail_weight h (more s rest) =
    let falls = Step-Falls h s in let later = Run-tail_weight h rest in omega arith

-- A goroutine that has not ended can take its next step.
abbrev pub CanMove : Config → Tail → Type 0
CanMove c t = (u : Tail) × Step c t u

sender-CanMove :
    (c : Config) (t : Tail) → IsAddress c.dst_ip → t.flow.sender ≡ looping → CanMove c t
unfolding send_round
sender-CanMove c t h loops = elim (Bool-cases t.sender_busy) [
  | inl busy ↦
      let (g, ran, _) = send_round-Forwarded c [] true t.flow h in (_, sends [] true busy loops ran)
  | inr idle ↦ (_, app_fails true idle loops refl)
]

receiver-CanMove : (c : Config) (t : Tail) → t.flow.receiver ≡ looping → CanMove c t
unfolding receive_round
receiver-CanMove c t loops = elim (Bool-cases t.receiver_busy) [
  | inl busy ↦
      let (g, ran, _) = receive_round-Received c [] none true t.flow in
      (_, receives [] none true busy loops ran)
  | inr idle ↦ (_, socket_fails true idle loops refl)
]

-- Nothing of the flow runs any more.
pub record IsOver (f : Udp) : Type 0 where
  pub sender_left : f.sender ≡ left
  pub receiver_left : f.receiver ≡ left
  pub monitor_left : f.monitor ≡ left
  pub has_returned : f.returned ≡ true

progress :
    (c : Config) (t : Tail)
    → IsAddress c.dst_ip
    → (s r m : Stage) (returned : Bool) → t.flow.sender ≡ s
    → t.flow.receiver ≡ r
    → t.flow.monitor ≡ m
    → t.flow.returned ≡ returned
    → CanMove c t ⊎ IsOver t.flow
progress c t h looping r m returned hs hr hm hd = inl (sender-CanMove c t h hs)
progress c t h leaving r m returned hs hr hm hd = inl (_, leaves sending hs)
progress c t h left looping m returned hs hr hm hd = inl (receiver-CanMove c t hr)
progress c t h left leaving m returned hs hr hm hd = inl (_, leaves receiving hr)
progress c t h left left looping returned hs hr hm hd = inl (_, control_ends hm)
progress c t h left left leaving returned hs hr hm hd = inl (_, leaves monitoring hm)
progress c t h left left left false hs hr hm hd = inl (_, returns hs hr hd)
progress c t h left left left true hs hr hm hd =
    inr (record { sender_left = hs; receiver_left = hr; monitor_left = hm; has_returned = hd })

stage_weight-bound : (s : Stage) → stage_weight s ≤ 2
stage_weight-bound looping = omega arith
stage_weight-bound leaving = omega arith
stage_weight-bound left = omega arith

-- All of it has ended, and everything has been closed exactly once.
pub record IsDone (f : Udp) : Type 0 where
  pub over : IsOver f
  pub app_once : f.app_closes ≡ 1
  pub socket_once : f.socket_closes ≡ 1
  pub ctrl_once : f.ctrl_closes ≡ 1

IsOver-IsDone : (f : Udp) → IsSettled f → IsOver f → IsDone f
IsOver-IsDone f v o =
    let (app, socket, ctrl) = v.once_shut (v.sender_left o.sender_left) in
    record { over = o; app_once = app; socket_once = socket; ctrl_once = ctrl }

-- From a state that `pipeUDP` can reach, for a destination of four or sixteen bytes, and if from
-- there on every read of the app's end, of the socket and of the control connection fails, as it
-- does when `shutdown` has closed them: `pipeUDP` and its goroutines take at most nine further
-- steps, in any order, the rest of a round that is under way included; and at the end of any such
-- run either a goroutine can take its next step, or all three have ended, `pipeUDP` has returned,
-- and everything has been closed exactly once.
pub relay_ends :
    {c : Config} {asked : List (List ℕ)} {heard : List (List ℕ × Option UdpAddr)} {t u : Tail}
    {n : ℕ}
    → IsAddress c.dst_ip
    → Runs.Reach c asked heard t.flow
    → Run c t n u
    → (n ≤ 9) × (CanMove c u ⊎ IsDone u.flow)
relay_ends {c} {asked} {heard} {t} {u} h r run =
    let total = Run-tail_weight h run in
    let by_sender = stage_weight-bound t.flow.sender in
    let by_receiver = stage_weight-bound t.flow.receiver in
    let by_monitor = stage_weight-bound t.flow.monitor in
    let busy : busy_weight t.sender_busy ≤ 1 = ground arith in
    let busy' : busy_weight t.receiver_busy ≤ 1 = ground arith in
    let running : return_weight t.flow.returned ≤ 1 = ground arith in
    let (_, _, reached) = Run-IsReached (asked, heard, r) run in
    (
      omega arith,
      elim (progress c u h u.flow.sender u.flow.receiver u.flow.monitor u.flow.returned refl refl
          refl refl) [
            | inl moves ↦ inl moves
            | inr over ↦ inr (IsOver-IsDone u.flow (relay_settles h reached) over)
          ],
    )
