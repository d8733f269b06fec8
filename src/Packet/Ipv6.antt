-- ===== src/Packet/Ipv6.antt =====
-- go/icmp_reject.go, `ipv6TransportHeader`: the walk over the chain of extension headers.
pub mod Chain
use teapod_tun2socks.Prelude.{
  ℕ, zero, suc, ◌+◌, ◌*◌, Option, none, some, List, length, Bool, ◌||◌, ◌==◌, ltb, if◌then◌else◌,
  Go, ret, ◌>>=◌, index,
}

-- `case 0, 43, 60`: Hop-by-Hop, Routing, Destination Options.
abbrev pub is_option_header : ℕ → Bool
is_option_header next = next == 0 || next == 43 || next == 60

-- The rounds of the loop that are left, the type of the next header and its offset. `none` stands
-- for (0, 0, false), and `some (proto, off)` for (proto, off, true).
unfoldable pub walk : ℕ → List ℕ → ℕ → ℕ → Go (Option (ℕ × ℕ))
unfolding index
walk zero pkt next off = ret none
walk (suc rounds) pkt next off =
    if is_option_header next
    then if ltb (length pkt) (off + 2) then ret none else (do
      len ← index pkt (off + 1)
      next' ← index pkt off
      walk rounds pkt next' (off + (len + 1) * 8))
    else if next == 44
    then if ltb (length pkt) (off + 8)
      then ret none
      else (do next' ← index pkt off; walk rounds pkt next' (off + 8))
    else if next == 59
    then ret none
    else if ltb (length pkt) off
    then ret none
    else ret (some (next, off))

-- `ipv6TransportHeader`
unfoldable pub ipv6_transport_header : List ℕ → Go (Option (ℕ × ℕ))
unfolding walk
ipv6_transport_header pkt =
    if ltb (length pkt) 40 then ret none else (do next ← index pkt 6; walk 8 pkt next 40)
