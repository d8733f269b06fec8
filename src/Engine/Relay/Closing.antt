-- ===== src/Engine/Relay/Closing.antt =====
-- When `pipeUDP` closes the app's end, the UDP socket and the control connection.
use teapod_tun2socks.Prelude.{
  ℕ, ◌≡◌, sym, List, true, false, Option, ◌⊎◌, inl, inr, ret-injective, arith, ◌∙◌,
}
use teapod_tun2socks.Engine.Relay.{
  UdpAddr, Config, leaving, left, Udp, send_round, receive_round, Goroutine, sending, receiving,
  monitoring, stage, shutdown, leave, finish,
}
use teapod_tun2socks.Engine.Relay.Runs.{
  Reach, started, asks, app_fails, hears, socket_fails, control_ends, leaves, finished,
}
use teapod_tun2socks.Socks.Datagram.RoundTrip.{IsAddress}
use teapod_tun2socks.Engine.Relay.Rounds.{receive_round-Received, send_round-Forwarded}

-- Everything is closed together and at most once: after `shutdown`, and then exactly once. A
-- goroutine that has ended has seen to it, and so has `pipeUDP` when it has returned.
pub record IsSettled (f : Udp) : Type 0 where
  pub unless_shut :
      f.shut ≡ false → (f.app_closes ≡ 0) × (f.socket_closes ≡ 0) × (f.ctrl_closes ≡ 0)
  pub once_shut : f.shut ≡ true → (f.app_closes ≡ 1) × (f.socket_closes ≡ 1) × (f.ctrl_closes ≡ 1)
  pub sender_left : f.sender ≡ left → f.shut ≡ true
  pub receiver_left : f.receiver ≡ left → f.shut ≡ true
  pub monitor_left : f.monitor ≡ left → f.shut ≡ true
  pub in_the_end : f.returned ≡ true → (f.sender ≡ left) × (f.receiver ≡ left) × (f.shut ≡ true)
  pub for_a_reason : f.shut ≡ true → (f.sender ≡ left) ⊎ ((f.receiver ≡ left) ⊎ (f.monitor ≡ left))

leave-IsSettled :
    (who : Goroutine) (f : Udp) → stage who f ≡ leaving → IsSettled f → IsSettled (leave who f)
unfolding leave shutdown
leave-IsSettled sending f h v = ground arith
leave-IsSettled receiving f h v = ground arith
leave-IsSettled monitoring f h v = ground arith

finish-IsSettled :
    (f : Udp) → f.sender ≡ left → f.receiver ≡ left → IsSettled f → IsSettled (finish f)
unfolding finish shutdown
finish-IsSettled f hs hr v = ground arith

-- In every interleaving, for a destination of four or sixteen bytes, `IsSettled` holds: the app's
-- end, the UDP socket and the control connection are closed together and at most once, not before
-- one of the three goroutines has ended, and each has been closed when a goroutine has ended and
-- when `pipeUDP` has returned.
pub relay_settles :
    {c : Config} {asked : List (List ℕ)} {heard : List (List ℕ × Option UdpAddr)} {f : Udp}
    → IsAddress c.dst_ip
    → Reach c asked heard f
    → IsSettled f
unfolding send_round receive_round
relay_settles h started = ground arith
relay_settles {c} h (asks {asked} {heard} {f} {g} packet ok r loops ran) =
    let v = relay_settles h r in
    let (g', ran', forwarded) = send_round-Forwarded c packet ok f h in
    let same : g' ≡ g = ret-injective g' g (sym ran' ∙ ran) in
    rw (← same) (elim forwarded [
      | inl (bytes, _, becomes) ↦ rw becomes (ground arith)
      | inr becomes ↦ rw becomes (ground arith)
    ])
relay_settles {c} h (app_fails {asked} {heard} {f} {g} ok r loops ran) =
    let v = relay_settles h r in rw (← ret-injective _ _ ran) (ground arith)
relay_settles {c} h (hears {asked} {heard} {f} {g} packet from ok r loops ran) =
    let v = relay_settles h r in
    let (g', ran', received) = receive_round-Received c packet from ok f in
    let same : g' ≡ g = ret-injective g' g (sym ran' ∙ ran) in
    rw (← same) (elim received [
      | inl becomes ↦ rw becomes (ground arith)
      | inr becomes ↦ rw becomes (ground arith)
    ])
relay_settles {c} h (socket_fails {asked} {heard} {f} {g} ok r loops ran) =
    let v = relay_settles h r in rw (← ret-injective _ _ ran) (ground arith)
relay_settles {c} h (control_ends {asked} {heard} {f} r loops) =
    let v = relay_settles h r in ground arith
relay_settles {c} h (leaves {asked} {heard} {f} who r leaving_now) =
    leave-IsSettled who f leaving_now (relay_settles h r)
relay_settles {c} h (finished {asked} {heard} {f} r hs hr _) =
    finish-IsSettled f hs hr (relay_settles h r)
