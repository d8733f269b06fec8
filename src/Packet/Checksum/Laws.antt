-- ===== src/Packet/Checksum/Laws.antt =====
-- One's complement sums: a checksum that is filled in makes the receiver's sum come out right.
use mathlib.Core.WellFounded.{Acc}
use native.Mathlib.Nat.{ℕ_set}
use mathlib.Core.Logic.{dif_pos, dif_neg}
use native.Mathlib.Decide.{ℕ_discrete}
use teapod_tun2socks.Prelude.{
  ℕ, ◌+◌, ◌*◌, ◌/◌, ◌%◌, ◌≤◌, ◌<◌, ◌≡◌, List, [], ◌∷◌, length, be16, to_u32, arith, AllBytes, ◌∙◌,
}
use teapod_tun2socks.Prelude.Order.{lt_wf}
use teapod_tun2socks.Packet.Checksum.{
  add_words, fold_carries_from, fold_carries, complement16, internet_checksum, fold_smaller,
}

-- The sum of the 16-bit words, with no wrap-around.
unfoldable pub word_sum : List ℕ → ℕ
word_sum (hi ∷ lo ∷ b) = be16 hi lo + word_sum b
word_sum (last ∷ []) = last * 256
word_sum [] = 0

pub add_words-word_sum :
    (b : List ℕ) (sum : ℕ) → sum + word_sum b < 4294967296 → add_words sum b ≡ sum + word_sum b
unfolding add_words word_sum
add_words-word_sum [] sum h = omega arith
add_words-word_sum (last ∷ []) sum h = omega arith
add_words-word_sum (hi ∷ lo ∷ b) sum h =
    let e : to_u32 (sum + be16 hi lo) ≡ sum + be16 hi lo = omega arith in
    rw e (omega (arith, add_words-word_sum b (sum + be16 hi lo)))

-- A word of bytes is below 2 ^ 16, so a short message has a sum that 32 bits hold.
pub word_sum-le : (b : List ℕ) → AllBytes b → 2 * word_sum b ≤ 65535 * (length b + 1)
unfolding word_sum
word_sum-le [] h = omega arith
word_sum-le (last ∷ []) h = omega arith
word_sum-le (hi ∷ lo ∷ b) h = omega (arith, word_sum-le b h.1.1)

-- Folding the carries keeps the residue modulo 65535, and never makes a sum zero.
fold_from :
    (sum : ℕ) (w : Acc ◌<◌ sum)
    → (fold_carries_from sum w ≤ 65535)
      × (fold_carries_from sum w % 65535 ≡ sum % 65535)
      × (fold_carries_from sum w ≤ sum)
      × (0 < sum → 0 < fold_carries_from sum w)
unfolding fold_carries_from
fold_from sum (Acc.intro _ smaller) = elim (ℕ_discrete (sum / 65536) 0) [
  | yes done ↦ rw (dif_pos _ (ℕ_set _ _) done) (omega arith)
  | no more ↦
      let sum' = sum % 65536 + sum / 65536 in
      let ih = fold_from sum' (smaller sum' (fold_smaller sum more)) in
      rw (dif_neg _ more) (ih.0, ih.1 ∙ omega arith, omega (arith, ih.2), λ pos. ih.3 (omega arith))
]

fold_carries_lem :
    (sum : ℕ)
    → (fold_carries sum ≤ 65535)
      × (fold_carries sum % 65535 ≡ sum % 65535)
      × (fold_carries sum ≤ sum)
      × (0 < sum → 0 < fold_carries sum)
unfolding fold_carries
fold_carries_lem sum = fold_from sum (lt_wf.apply sum)

-- A sum that is filled up by the complement of its folded value folds to 0xFFFF.
pub fold-complement :
    (sum : ℕ) → complement16 (fold_carries (sum + complement16 (fold_carries sum))) ≡ 0
fold-complement sum =
    let whole = sum + complement16 (fold_carries sum) in
    let pos : 0 < whole = omega (arith, fold_carries_lem sum) in
    let some_sum : 0 < fold_carries whole = (fold_carries_lem whole).3 pos in
    omega (arith, fold_carries_lem sum, fold_carries_lem whole, some_sum)

-- The checksum is a 16-bit number.
pub internet_checksum-lt : (b : List ℕ) → internet_checksum b < 65536
unfolding internet_checksum
internet_checksum-lt b = omega arith

-- The message `b` with the checksum `c` in a field that it left zero: the receiver's sum over the
-- whole message, the field included, is zero.
pub checksum_verifies :
    (b filled : List ℕ)
    → word_sum b + 65535 < 4294967296
    → word_sum filled ≡ word_sum b + internet_checksum b
    → internet_checksum filled ≡ 0
unfolding internet_checksum
checksum_verifies b filled small fills =
    let plain = add_words-word_sum b 0 (omega arith) in
    let whole = add_words-word_sum filled 0 (omega (arith, internet_checksum-lt b)) in
    let zeroth : (n : ℕ) → 0 + n ≡ n = λ n. omega arith in
    rw (whole, zeroth, fills, plain, zeroth) (fold-complement (word_sum b))
