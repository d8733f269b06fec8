-- ===== src/Engine/Diagnostics/Verdict.antt =====
-- The seconds that `Diagnostics` shows, and the verdict of `idleVerdict` at the same moment.
use teapod_tun2socks.Prelude.{
  ℕ, zero, suc, ◌+◌, ◌-◌, ◌*◌, ◌/◌, ◌≤◌, ◌<◌, ◌≡◌, refl, ap, ◌↔◌, pos, negsuc, ◌-ℤ◌, ◌≤ℤ◌, ltb_ℤ,
  neg, leb, true, false, Bool-cases, arith, inl, inr,
}
use teapod_tun2socks.Engine.Idle.{idle_verdict, idle_verdict_lem, idle-ℤ, IsIdle}
use teapod_tun2socks.Engine.Diagnostics.{Activity, ConnDiag, seconds_since, conn_diag}

neg-not_pos : (n k : ℕ) → ¬ (pos (suc k) ≤ℤ neg n)
neg-not_pos zero k h = omega arith
neg-not_pos (suc n) k h = omega arith

not_below_neg : (m n : ℕ) → ¬ (ltb_ℤ (pos m) (neg n) ≡ true)
not_below_neg m zero h = ground arith
not_below_neg m (suc n) h = ground arith

later :
    (now t : ℕ)
    → now < 9223372036854775808
    → t < 9223372036854775808
    → t ≤ now
    → seconds_since (pos now) (pos t) ≡ pos ((now - t) / 1000)
unfolding seconds_since ◌-ℤ◌
later now t hn ht h =
    let difference : pos now -ℤ pos t ≡ pos (now - t) = ground arith in
    rw (idle-ℤ now t hn ht, difference) refl

earlier :
    (now t : ℕ)
    → now < 9223372036854775808
    → t < 9223372036854775808
    → now < t
    → seconds_since (pos now) (pos t) ≡ neg ((t - now) / 1000)
unfolding seconds_since ◌-ℤ◌
earlier now t hn ht h =
    let difference : pos now -ℤ pos t ≡ negsuc (t - now - 1) = ground arith in
    let whole : suc (t - now - 1) ≡ t - now = omega arith in
    rw (idle-ℤ now t hn ht, difference) (rw whole refl)

-- A number of seconds is shown exactly if as many have passed.
seconds_reached :
    (now t k : ℕ)
    → now < 9223372036854775808
    → t < 9223372036854775808
    → (pos (suc k) ≤ℤ seconds_since (pos now) (pos t)) ↔ (t + 1000 * suc k ≤ now)
seconds_reached now t k hn ht = elim (Bool-cases (leb t now)) [
  | inl after ↦
      let le : t ≤ now = ground arith in
      rw (later now t hn ht le) (λ h. omega arith, λ h. omega arith)
  | inr before ↦
      let lt : now < t = ground arith in
      rw (earlier now t hn ht lt)
        (λ h. absurd (neg-not_pos ((t - now) / 1000) k h), λ h. omega arith)
]

seconds_order :
    (now tx rx : ℕ)
    → now < 9223372036854775808
    → tx < 9223372036854775808
    → rx < 9223372036854775808
    → tx ≤ now
    → ltb_ℤ (seconds_since (pos now) (pos tx)) (seconds_since (pos now) (pos rx)) ≡ true
    → rx < tx
seconds_order now tx rx hn ht hr le h = elim (Bool-cases (leb rx now)) [
  | inl after ↦
      let seen : rx ≤ now = ground arith in
      let fewer : (now - tx) / 1000 < (now - rx) / 1000 =
        (let h' = rw (later now tx hn ht le, later now rx hn hr seen) at h in ground arith) in
      omega arith
  | inr before ↦
      let ahead : now < rx = ground arith in
      absurd (
        not_below_neg ((now - tx) / 1000) ((rx - now) / 1000)
          (rw (later now tx hn ht le, earlier now rx hn hr ahead) at h))
]

-- The flow expires without the sign of a zombie exactly if it is idle.
IsIdle-exactly :
    (tx rx now : ℕ)
    → tx < 9223372036854775808
    → rx < 9223372036854775808
    → now < 9223372036854775808
    → (((idle_verdict (pos tx) (pos rx) (pos now)).0 ≡ true)
          × ((idle_verdict (pos tx) (pos rx) (pos now)).1 ≡ false)
        ↔ IsIdle tx rx now)
IsIdle-exactly tx rx now ht hr hn =
    let (expires, zombie) = idle_verdict_lem tx rx now ht hr hn in
    (λ h. ground arith, λ h. ground arith)

-- A connection to be closed as idle, and one that matches the sign of a zombie, by its row
abbrev pub ShowsIdle : ConnDiag → Type 0
ShowsIdle d = (pos 300 ≤ℤ d.tx_idle_sec) × (pos 300 ≤ℤ d.rx_idle_sec)

abbrev pub ShowsZombie : ConnDiag → Type 0
ShowsZombie d = (pos 120 ≤ℤ d.tx_idle_sec) × (ltb_ℤ d.tx_idle_sec d.rx_idle_sec ≡ true)

-- For times of the epoch that 63 bits hold, the row of a connection and the verdict on it at the
-- same moment agree: it expires as idle exactly if the row shows 300 seconds in both directions; it
-- expires if the row shows 120 seconds since the app has sent, and more since it has received; and
-- if it expires, the row shows at least 120 seconds in both directions.
pub conn_diag-verdict :
    (now tx rx : ℕ) (tc : Activity)
    → now < 9223372036854775808
    → tx < 9223372036854775808
    → rx < 9223372036854775808
    → tc.last_tx_ms ≡ pos tx
    → tc.last_rx_ms ≡ pos rx
    → (((idle_verdict (pos tx) (pos rx) (pos now)).0 ≡ true)
          × ((idle_verdict (pos tx) (pos rx) (pos now)).1 ≡ false)
        ↔ ShowsIdle (conn_diag (pos now) tc))
      × (ShowsZombie (conn_diag (pos now) tc) → (idle_verdict (pos tx) (pos rx) (pos now)).0 ≡ true)
      × ((idle_verdict (pos tx) (pos rx) (pos now)).0 ≡ true
          → (pos 120 ≤ℤ (conn_diag (pos now) tc).tx_idle_sec)
            × (pos 120 ≤ℤ (conn_diag (pos now) tc).rx_idle_sec))
conn_diag-verdict now tx rx tc hn ht hr same_tx same_rx =
    let expires = (idle_verdict_lem tx rx now ht hr hn).0 in
    let idle = IsIdle-exactly tx rx now ht hr hn in
    let long_tx = seconds_reached now tx 299 hn ht in
    let long_rx = seconds_reached now rx 299 hn hr in
    let some_tx = seconds_reached now tx 119 hn ht in
    let some_rx = seconds_reached now rx 119 hn hr in
    let shown_tx : (conn_diag (pos now) tc).tx_idle_sec ≡ seconds_since (pos now) (pos tx) =
      ap (seconds_since (pos now)) same_tx in
    let shown_rx : (conn_diag (pos now) tc).rx_idle_sec ≡ seconds_since (pos now) (pos rx) =
      ap (seconds_since (pos now)) same_rx in
    rw (shown_tx, shown_rx)
      (
        (
          λ h. let (by_tx, by_rx) = idle.0 h in (long_tx.1 (omega arith), long_rx.1 (omega arith)),
          λ h.
              let by_tx = long_tx.0 h.0 in
              let by_rx = long_rx.0 h.1 in idle.1 (omega arith, omega arith),
        ),
        λ h.
            let sent = some_tx.0 h.0 in
            let order = seconds_order now tx rx hn ht hr (omega arith) h.1 in
            expires.1 (inr (order, omega arith)),
        λ h. elim (expires.0 h) [
          | inl silent ↦
              let (by_tx, by_rx) = silent in (some_tx.1 (omega arith), some_rx.1 (omega arith))
          | inr zombie ↦
              let (order, sent) = zombie in (some_tx.1 (omega arith), some_rx.1 (omega arith))
        ],
      )
