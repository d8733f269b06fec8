-- ===== src/Socks/Address.antt =====
-- `net.IP` as go/socks5.go uses it, and the choice of the address type that `EncodeUDPDatagram` and
-- `sendConnect` make.
use teapod_tun2socks.Prelude.{
  ℕ, List, [], ◌∷◌, ◌++◌, length, take, drop, Bool, true, false, ◌&&◌, ◌==◌, Option, some, none,
  if◌then◌else◌,
}

abbrev pub same_bytes : List ℕ → List ℕ → Bool
same_bytes [] [] = true
same_bytes (a ∷ xs) (b ∷ ys) = a == b && same_bytes xs ys
same_bytes [] (b ∷ ys) = false
same_bytes (a ∷ xs) [] = false

-- The first twelve bytes of an IPv4 address in its form of sixteen bytes.
abbrev pub mapped : List ℕ
mapped = 0 ∷ 0 ∷ 0 ∷ 0 ∷ 0 ∷ 0 ∷ 0 ∷ 0 ∷ 0 ∷ 0 ∷ 255 ∷ 255 ∷ []

-- `net.IP.To4`
unfoldable pub to4 : List ℕ → Option (List ℕ)
to4 ip =
    if length ip == 4
    then some ip
    else if length ip == 16 && same_bytes (take 12 ip) mapped
    then some (drop 12 ip)
    else none

-- `net.IP.To16`, with the empty list for nil
unfoldable pub to16 : List ℕ → List ℕ
to16 ip = if length ip == 4 then mapped ++ ip else if length ip == 16 then ip else []

-- The address type and the bytes of the address.
unfoldable pub destination : List ℕ → ℕ × List ℕ
destination ip = elim (to4 ip) [ some v4 ↦ (1, v4) | none ↦ (4, to16 ip) ]
