-- ===== src/Packet/Checksum.antt =====
-- go/icmp_reject.go, `internetChecksum`, and the same sum in `buildICMPv6PortUnreachable`.
pub mod Laws
use mathlib.Core.WellFounded.{Acc}
use mathlib.Core.Logic.{dite}
use native.Mathlib.Decide.{ℕ_discrete}
use teapod_tun2socks.Prelude.{
  ℕ, ◌+◌, ◌-◌, ◌*◌, ◌/◌, ◌%◌, ◌<◌, List, [], ◌∷◌, be16, to_u32, arith, ◌≢◌,
}
use teapod_tun2socks.Prelude.Order.{lt_wf}

-- `sum += uint32(b[i])<<8 | uint32(b[i+1])` for each pair of bytes, and a last byte on its own: the
-- indices of the loop are always in range, so it is a recursion on the bytes that are left.
unfoldable pub add_words : ℕ → List ℕ → ℕ
add_words sum (hi ∷ lo ∷ b) = add_words (to_u32 (sum + be16 hi lo)) b
add_words sum (last ∷ []) = to_u32 (sum + last * 256)
add_words sum [] = sum

-- A round of the loop below makes the sum smaller.
pub fold_smaller : (sum : ℕ) → sum / 65536 ≢ 0 → sum % 65536 + sum / 65536 < sum
fold_smaller sum h = omega arith

-- `for sum>>16 != 0 { sum = (sum & 0xFFFF) + (sum >> 16) }`
unfoldable pub fold_carries_from : (sum : ℕ) → Acc ◌<◌ sum → ℕ
fold_carries_from sum (Acc.intro _ smaller) =
    dite (ℕ_discrete (sum / 65536) 0) (λ _. sum)
      (λ h.
        fold_carries_from (sum % 65536 + sum / 65536)
          (smaller (sum % 65536 + sum / 65536) (fold_smaller sum h)))

unfoldable pub fold_carries : ℕ → ℕ
unfolding fold_carries_from lt_wf ℕ_discrete
fold_carries sum = fold_carries_from sum (lt_wf.apply sum)

-- `^uint16(sum)`
abbrev pub complement16 : ℕ → ℕ
complement16 sum = 65535 - sum % 65536

-- `internetChecksum`
unfoldable pub internet_checksum : List ℕ → ℕ
internet_checksum b = complement16 (fold_carries (add_words 0 b))
