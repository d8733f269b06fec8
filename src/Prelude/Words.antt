-- ===== src/Prelude/Words.antt =====
-- Bytes and words: Go's fixed-width integers as numbers with their wrap-around written out.
use native.Mathlib.Omega.{arith}
use Prim.Native.Nat.{zero, suc}
use teapod_tun2socks.Prelude.Lists.{take, get_or}
use Prim.Native.Nat.{ℕ, ◌+◌, ◌-◌, ◌*◌, ◌%◌, ◌<◌}
use mathlib.Core.List.{List, [], ◌∷◌}
use teapod_tun2socks.Prelude.Int.{ℤ, pos, negsuc}

-- `uint8(n)` and `byte(n)`, `uint16(n)`, `uint32(n)` of a number that is not negative.
abbrev pub to_u8 : ℕ → ℕ
to_u8 n = n % 256

abbrev pub to_u16 : ℕ → ℕ
to_u16 n = n % 65536

abbrev pub to_u32 : ℕ → ℕ
to_u32 n = n % 4294967296

-- `uint16(n)` of an `int`, in two's complement.
abbrev pub int_to_u16 : ℤ → ℕ
int_to_u16 (pos n) = n % 65536
int_to_u16 (negsuc n) = 65535 - n % 65536

abbrev pub IsByte : ℕ → Type 0
IsByte b = b < 256

abbrev pub AllBytes : List ℕ → Type 0
AllBytes [] = Unit
AllBytes (b ∷ bs) = IsByte b × AllBytes bs

-- `uint16(hi)<<8 | uint16(lo)`: the low byte falls into the zeros of the shifted one.
abbrev pub be16 : ℕ → ℕ → ℕ
be16 hi lo = hi * 256 + lo

pub AllBytes-take : (n : ℕ) (b : List ℕ) → AllBytes b → AllBytes (take n b)
AllBytes-take zero b h = tt
AllBytes-take (suc n) [] h = tt
AllBytes-take (suc n) (x ∷ b) h = (h.0, AllBytes-take n b h.1)

pub get_or-IsByte : (b : List ℕ) (i : ℕ) → AllBytes b → IsByte (get_or b i 0)
get_or-IsByte [] i h = omega arith
get_or-IsByte (x ∷ b) zero h = h.0
get_or-IsByte (x ∷ b) (suc i) h = get_or-IsByte b i h.1
