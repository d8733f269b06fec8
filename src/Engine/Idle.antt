-- ===== src/Engine/Idle.antt =====
-- go/engine.go, `trackedConn.idleVerdict` and the timeouts of a TCP flow.
use teapod_tun2socks.Prelude.{
  ℕ, ◌+◌, ◌≤◌, ◌<◌, ◌≡◌, ◌↔◌, ◌⊎◌, ℤ, pos, ◌-ℤ◌, ltb_ℤ, leb_ℤ, wrap_i64, wrap_i64_small, Bool, true,
  false, ◌&&◌, if◌then◌else◌, arith,
}

-- `tcpIdleTimeout.Milliseconds()` and `tcpZombieTimeout.Milliseconds()`
abbrev pub tcp_idle_timeout : ℕ
tcp_idle_timeout = 300000

abbrev pub tcp_zombie_timeout : ℕ
tcp_zombie_timeout = 120000

-- `idleVerdict` for the times `tx` and `rx` that it loads: (expired, zombie). All times are int64.
unfoldable pub idle_verdict : ℤ → ℤ → ℤ → Bool × Bool
idle_verdict tx rx now =
    let last = if ltb_ℤ tx rx then rx else tx in
    let idle = wrap_i64 (now -ℤ last) in
    if leb_ℤ (pos tcp_idle_timeout) idle
    then (true, false)
    else if ltb_ℤ rx tx && leb_ℤ (pos tcp_zombie_timeout) idle
    then (true, true)
    else (false, false)

-- Both directions have been silent for the idle timeout.
abbrev pub IsIdle : ℕ → ℕ → ℕ → Type 0
IsIdle tx rx now = (tx + tcp_idle_timeout ≤ now) × (rx + tcp_idle_timeout ≤ now)

-- The app has sent since the upstream last did, and nothing came back for the zombie timeout.
abbrev pub IsZombie : ℕ → ℕ → ℕ → Type 0
IsZombie tx rx now = (rx < tx) × (tx + tcp_zombie_timeout ≤ now)

pub idle-ℤ :
    (now last : ℕ)
    → now < 9223372036854775808
    → last < 9223372036854775808
    → wrap_i64 (pos now -ℤ pos last) ≡ pos now -ℤ pos last
unfolding ◌-ℤ◌
idle-ℤ now last h k = wrap_i64_small (pos now -ℤ pos last) (ground arith) (ground arith)

-- For times of the epoch that 63 bits hold: the flow expires exactly if it is idle or a zombie, and
-- it counts as a zombie exactly if it is one and not yet idle.
pub idle_verdict_lem :
    (tx rx now : ℕ)
    → tx < 9223372036854775808
    → rx < 9223372036854775808
    → now < 9223372036854775808
    → (((idle_verdict (pos tx) (pos rx) (pos now)).0 ≡ true)
        ↔ (IsIdle tx rx now ⊎ IsZombie tx rx now))
      × (((idle_verdict (pos tx) (pos rx) (pos now)).1 ≡ true)
          ↔ (IsZombie tx rx now × (now < tx + tcp_idle_timeout)))
unfolding idle_verdict ◌-ℤ◌
idle_verdict_lem tx rx now ht hr hn =
    let by_rx = idle-ℤ now rx hn hr in
    let by_tx = idle-ℤ now tx hn ht in
    ((λ h. ground arith, λ h. ground arith), (λ h. ground arith, λ h. ground arith))
