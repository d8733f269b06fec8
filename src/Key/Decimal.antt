-- ===== src/Key/Decimal.antt =====
-- `itoa`: the decimal digits of a port, written from the back of a buffer of six bytes.
use teapod_tun2socks.Prelude.{
  ℕ, zero, suc, ◌+◌, ◌-◌, ◌*◌, ◌/◌, ◌%◌, ◌^◌, ◌≤◌, ◌<◌, ◌≡◌, refl, List, [], ◌∷◌, ◌==◌, length,
  arith, if◌then◌else◌, Go, ret, panic, Bool-cases, inl, inr, ap, ◌⊎◌, false, ◌∙◌,
}

-- The loop: `i` bytes of the buffer are free, and `written` is `buf[i:]`. A write to `buf[-1]` panics.
unfoldable pub itoa_loop : ℕ → ℕ → List ℕ → Go (List ℕ)
itoa_loop zero n written = if n == 0 then ret written else panic
itoa_loop (suc i) n written =
    let rest = itoa_loop i (n / 10) (((b'0' + n % 10) % 256) ∷ written) in
    if n == 0 then ret written else rest

-- `itoa`
unfoldable pub itoa : ℕ → Go (List ℕ)
itoa n = if n == 0 then ret (b'0' ∷ []) else itoa_loop 6 n []

-- The number that digits stand for, behind a number that is already read.
abbrev pub number : ℕ → List ℕ → ℕ
number v [] = v
number v (d ∷ ds) = number (v * 10 + (d - b'0')) ds

abbrev pub AllDigits : List ℕ → Type 0
AllDigits [] = Unit
AllDigits (d ∷ ds) = (b'0' ≤ d) × (d ≤ b'9') × AllDigits ds

-- The first digit is no zero.
abbrev pub LeadsNonzero : List ℕ → Type 0
LeadsNonzero [] = ⊥
LeadsNonzero (d ∷ ds) = b'0' < d

-- The digit that the loop writes.
digit : ℕ → ℕ
digit n = (b'0' + n % 10) % 256

digit_range : (n : ℕ) → (digit n ≡ 48 + n % 10) × (digit n ≤ 57)
unfolding digit
digit_range n = omega arith

number_shift : (n : ℕ) (written : List ℕ) → number (n / 10) (digit n ∷ written) ≡ number n written
number_shift n written =
    let e : n / 10 * 10 + (digit n - 48) ≡ n = omega (arith, digit_range n) in
    ap (λ v. number v written) e

-- What is written so far and the number that is left make up the whole.
itoa_loop-number :
    (i j n : ℕ) (written : List ℕ)
    → n < 10 ^ j
    → j ≤ i
    → AllDigits written
    → (0 < n) ⊎ LeadsNonzero written
    → (ds : List ℕ) × (itoa_loop i n written ≡ ret ds)
      × (number 0 ds ≡ number n written)
      × AllDigits ds
      × LeadsNonzero ds
      × (length ds ≤ j + length written)
unfolding itoa_loop digit
itoa_loop-number i zero n written small fits digits leads =
    let e : n ≡ 0 = omega arith in rw e (written, stops i, refl, digits, led leads, omega arith)
  where
    stops : (i : ℕ) → itoa_loop i 0 written ≡ ret written
    stops zero = refl
    stops (suc i) = refl

    led : (0 < n) ⊎ LeadsNonzero written → LeadsNonzero written
    led (inl p) = absurd (omega arith)
    led (inr l) = l
itoa_loop-number zero (suc j) n written small fits digits leads = absurd (omega arith)
itoa_loop-number (suc i) (suc j) n written small fits digits leads = elim (Bool-cases (n == 0)) [
  | inl done ↦
      let e : n ≡ 0 = ground arith in rw e (written, refl, refl, digits, led leads e, omega arith)
  | inr more ↦
      let (ds, ran, value, all, first, short) =
        itoa_loop-number i j (n / 10) (digit n ∷ written) (omega arith) (omega arith)
          (omega (arith, digit_range n), omega (arith, digit_range n), digits) (next more) in
      (ds, rw more ran, value ∙ number_shift n written, all, first, omega arith)
]
  where
    led : (0 < n) ⊎ LeadsNonzero written → n ≡ 0 → LeadsNonzero written
    led (inl p) e = absurd (omega arith)
    led (inr l) e = l

    next : (n == 0) ≡ false → (0 < n / 10) ⊎ LeadsNonzero (digit n ∷ written)
    next more = ground (arith, digit_range n)

-- For every port `itoa` returns the decimal digits of the port: at most five, each a digit, the
-- first one no zero unless the port is 0. It never writes outside its buffer.
pub itoa-number :
    (n : ℕ)
    → n < 65536
    → (ds : List ℕ) × (itoa n ≡ ret ds)
      × (number 0 ds ≡ n)
      × AllDigits ds
      × (length ds ≤ 5)
      × ((n ≡ 0) ⊎ LeadsNonzero ds)
unfolding itoa
itoa-number n small = elim (Bool-cases (n == 0)) [
  | inl zeroed ↦
      rw zeroed (b'0' ∷ [], refl, ground arith, omega arith, omega arith, inl (ground arith))
  | inr more ↦
      let (ds, ran, value, all, first, short) =
        itoa_loop-number 6 5 n [] (omega arith) (omega arith) tt (inl (ground arith)) in
      (ds, rw more ran, value, all, omega arith, inr first)
]
