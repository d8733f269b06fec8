-- ===== src/Packet/Ipv6/Chain.antt =====
-- The walk against the chain of headers that RFC 8200 describes.
use teapod_tun2socks.Prelude.{
  ℕ, suc, ◌+◌, ◌*◌, ◌≤◌, ◌≡◌, ◌≢◌, refl, List, length, get_or, true, false, ltb, index_lem, arith,
  ◌<◌, Bool-cases, if◌then◌else◌, leb, inl, inr, ◌⊎◌, zero, ◌==◌, ◌∙◌, ◌||◌, Bool,
}
use teapod_tun2socks.Packet.Ipv6.{walk, ret, none, some, Go, ipv6_transport_header, Option}

-- The byte at an offset.
abbrev pub byte : List ℕ → ℕ → ℕ
byte pkt i = get_or pkt i 0

-- Hop-by-Hop Options, Routing, Destination Options: the headers that have a length of their own.
abbrev pub names_options : ℕ → Bool
names_options next = next == 0 || next == 43 || next == 60

-- `Chain pkt n next off proto end`: from a header of type `next` at `off`, `n` extension headers
-- lead to the upper-layer protocol `proto` at `end`. Each header names the type of the one behind
-- it. An options header is as long as its second byte says, a fragment header is 8 bytes long.
pub data Chain (pkt : List ℕ) : ℕ → ℕ → ℕ → ℕ → ℕ → Type 0 where
  upper :
      {next off : ℕ}
      → names_options next ≡ false
      → next ≢ 44
      → next ≢ 59
      → off ≤ length pkt
      → Chain pkt 0 next off next off
  options :
      {n next off proto end : ℕ}
      → names_options next ≡ true
      → off + 2 ≤ length pkt
      → Chain pkt n (byte pkt off) (off + (byte pkt (off + 1) + 1) * 8) proto end
      → Chain pkt (suc n) next off proto end
  fragment :
      {n next off proto end : ℕ}
      → next ≡ 44
      → off + 8 ≤ length pkt
      → Chain pkt n (byte pkt off) (off + 8) proto end
      → Chain pkt (suc n) next off proto end

-- One round of the loop, on each kind of header.
walk_options :
    (rounds : ℕ) (pkt : List ℕ) (next off : ℕ)
    → names_options next ≡ true
    → off + 2 ≤ length pkt
    → walk (suc rounds) pkt next off
      ≡ walk rounds pkt (byte pkt off) (off + (byte pkt (off + 1) + 1) * 8)
unfolding walk
walk_options rounds pkt next off kind room =
    let e : ltb (length pkt) (off + 2) ≡ false = ground arith in
    rw (kind, e)
      (rw (index_lem pkt (off + 1) 0 (omega arith), index_lem pkt off 0 (omega arith)) refl)

walk_fragment :
    (rounds : ℕ) (pkt : List ℕ) (next off : ℕ)
    → next ≡ 44
    → off + 8 ≤ length pkt
    → walk (suc rounds) pkt next off ≡ walk rounds pkt (byte pkt off) (off + 8)
unfolding walk
walk_fragment rounds pkt next off kind room =
    let e : ltb (length pkt) (off + 8) ≡ false = ground arith in
    rw (kind, e) (rw (index_lem pkt off 0 (omega arith)) refl)

walk_upper :
    (rounds : ℕ) (pkt : List ℕ) (next off : ℕ)
    → names_options next ≡ false
    → next ≢ 44
    → next ≢ 59
    → off ≤ length pkt
    → walk (suc rounds) pkt next off ≡ ret (some (next, off))
unfolding walk
walk_upper rounds pkt next off h not_fragment not_end fits =
    let e : ltb (length pkt) off ≡ false = ground arith in
    let f : (next == 44) ≡ false = ground arith in
    let g : (next == 59) ≡ false = ground arith in rw (h, f, g, e)

-- Where the walk stops with no protocol: a truncated header, or No Next Header.
data Stuck (pkt : List ℕ) (next off : ℕ) : Type 0 where
  short_options : names_options next ≡ true → length pkt < off + 2 → Stuck pkt next off
  short_fragment : next ≡ 44 → length pkt < off + 8 → Stuck pkt next off
  no_next : next ≡ 59 → Stuck pkt next off
  beyond :
      names_options next ≡ false → next ≢ 44 → next ≢ 59 → length pkt < off → Stuck pkt next off

-- What one header is.
data Header (pkt : List ℕ) (next off : ℕ) : Type 0 where
  is_options : names_options next ≡ true → off + 2 ≤ length pkt → Header pkt next off
  is_fragment : next ≡ 44 → off + 8 ≤ length pkt → Header pkt next off
  is_upper :
      names_options next ≡ false → next ≢ 44 → next ≢ 59 → off ≤ length pkt → Header pkt next off
  is_stuck : Stuck pkt next off → Header pkt next off

Header-cases : (pkt : List ℕ) (next off : ℕ) → Header pkt next off
Header-cases pkt next off = elim (Bool-cases (names_options next)) [
  | inl o ↦ elim (Bool-cases (ltb (length pkt) (off + 2))) [
    | inl s ↦ is_stuck (short_options o (ground arith))
    | inr r ↦ is_options o (ground arith)
  ]
  | inr o ↦ elim (Bool-cases (next == 44)) [
    | inl f ↦ elim (Bool-cases (ltb (length pkt) (off + 8))) [
      | inl s ↦ is_stuck (short_fragment (ground arith) (ground arith))
      | inr r ↦ is_fragment (ground arith) (ground arith)
    ]
    | inr f ↦ elim (Bool-cases (next == 59)) [
      | inl n ↦ is_stuck (no_next (ground arith))
      | inr n ↦ elim (Bool-cases (ltb (length pkt) off)) [
        | inl s ↦ is_stuck (beyond o (λ e. ground arith) (λ e. ground arith) (ground arith))
        | inr r ↦ is_upper o (λ e. ground arith) (λ e. ground arith) (ground arith)
      ]
    ]
  ]
]

walk-Stuck :
    (rounds : ℕ) (pkt : List ℕ) (next off : ℕ)
    → Stuck pkt next off
    → walk (suc rounds) pkt next off ≡ ret none
unfolding walk
walk-Stuck rounds pkt next off (short_options o s) =
    let e : ltb (length pkt) (off + 2) ≡ true = ground arith in rw (o, e)
walk-Stuck rounds pkt next off (short_fragment f s) =
    let e : ltb (length pkt) (off + 8) ≡ true = ground arith in rw (f, e)
walk-Stuck rounds pkt next off (no_next n) = rw n
walk-Stuck rounds pkt next off (beyond o f n s) =
    let e : ltb (length pkt) off ≡ true = ground arith in
    let g : (next == 44) ≡ false = ground arith in
    let i : (next == 59) ≡ false = ground arith in rw (o, g, i, e)

-- What a walk that returned `r` has found.
abbrev Found : List ℕ → ℕ → ℕ → ℕ → Go (Option (ℕ × ℕ)) → Type 0
Found pkt rounds next off r =
    (r ≡ ret none)
    ⊎ ((proto : ℕ) × (end : ℕ) × (n : ℕ) × (r ≡ ret (some (proto, end)))
        × (n < rounds)
        × Chain pkt n next off proto end)

Found-further :
    (pkt : List ℕ) (rounds next off next' off' : ℕ) (r : Go (Option (ℕ × ℕ)))
    → ((n proto end : ℕ) → Chain pkt n next' off' proto end → Chain pkt (suc n) next off proto end)
    → Found pkt rounds next' off' r
    → Found pkt (suc rounds) next off r
Found-further pkt rounds next off next' off' r step (inl e) = inl e
Found-further pkt rounds next off next' off' r step (inr (proto, end, n, e, h, c)) =
    inr (proto, end, suc n, e, omega arith, step n proto end c)

-- The walk returns, and what it finds is at the end of a chain that it had the rounds to follow.
walk-Found :
    (rounds : ℕ) (pkt : List ℕ) (next off : ℕ)
    → Found pkt rounds next off (walk rounds pkt next off)
walk-Found zero pkt next off = inl (unfold walk in refl)
walk-Found (suc rounds) pkt next off = elim (Header-cases pkt next off) [
  | is_stuck s ↦ inl (walk-Stuck rounds pkt next off s)
  | is_upper o f n r ↦
      inr (next, off, 0, walk_upper rounds pkt next off o f n r, omega arith, upper o f n r)
  | is_options o r ↦
      let next' = byte pkt off in
      let off' = off + (byte pkt (off + 1) + 1) * 8 in
      rw (walk_options rounds pkt next off o r) (
        Found-further pkt rounds next off next' off' _ (λ n p e c. options o r c)
          (walk-Found rounds pkt next' off'))
  | is_fragment f r ↦
      let next' = byte pkt off in
      rw (walk_fragment rounds pkt next off f r) (
        Found-further pkt rounds next off next' (off + 8) _ (λ n p e c. fragment f r c)
          (walk-Found rounds pkt next' (off + 8)))
]

walk-Chain :
    (pkt : List ℕ) (rounds : ℕ) {n next off proto end : ℕ}
    → Chain pkt n next off proto end
    → n < rounds
    → walk rounds pkt next off ≡ ret (some (proto, end))
walk-Chain pkt zero c h = absurd (omega arith)
walk-Chain pkt (suc rounds) {next} {off} (upper o f n r) h = walk_upper rounds pkt next off o f n r
walk-Chain pkt (suc rounds) {next} {off} (options o r c) h =
    walk_options rounds pkt next off o r ∙ walk-Chain pkt rounds c (omega arith)
walk-Chain pkt (suc rounds) {next} {off} (fragment f r c) h =
    walk_fragment rounds pkt next off f r ∙ walk-Chain pkt rounds c (omega arith)

-- A chain of at least as many extension headers as there are rounds is given up.
walk-long :
    (pkt : List ℕ) (rounds : ℕ) {n next off proto end : ℕ}
    → Chain pkt n next off proto end
    → rounds ≤ n
    → walk rounds pkt next off ≡ ret none
walk-long pkt zero c h = unfold walk in refl
walk-long pkt (suc rounds) (upper o f n r) h = absurd (omega arith)
walk-long pkt (suc rounds) {next} {off} (options o r c) h =
    walk_options rounds pkt next off o r ∙ walk-long pkt rounds c (omega arith)
walk-long pkt (suc rounds) {next} {off} (fragment f r c) h =
    walk_fragment rounds pkt next off f r ∙ walk-long pkt rounds c (omega arith)

Chain-bounds :
    {pkt : List ℕ} {n next off proto end : ℕ}
    → Chain pkt n next off proto end
    → (off ≤ end) × (end ≤ length pkt)
Chain-bounds (upper o f n r) = omega arith
Chain-bounds (options o r c) = omega (arith, Chain-bounds c)
Chain-bounds (fragment f r c) = omega (arith, Chain-bounds c)

-- The chain of a packet starts behind the fixed header of 40 bytes.
abbrev pub PacketChain : List ℕ → ℕ → ℕ → ℕ → Type 0
PacketChain pkt n proto end = (40 ≤ length pkt) × Chain pkt n (byte pkt 6) 40 proto end

header_start :
    (pkt : List ℕ) → 40 ≤ length pkt → ipv6_transport_header pkt ≡ walk 8 pkt (byte pkt 6) 40
unfolding ipv6_transport_header
header_start pkt h =
    let e : ltb (length pkt) 40 ≡ false = ground arith in
    rw e (rw (index_lem pkt 6 0 (omega arith)) refl)

header_short : (pkt : List ℕ) → length pkt < 40 → ipv6_transport_header pkt ≡ ret none
unfolding ipv6_transport_header
header_short pkt h = let e : ltb (length pkt) 40 ≡ true = ground arith in rw e

-- `ipv6TransportHeader` never panics. It answers with a protocol and an offset only if the chain of
-- the packet leads to them over at most seven extension headers, and then the offset lies between
-- 40 and the length of the packet.
pub ipv6_transport_header_sound :
    (pkt : List ℕ)
    → (ipv6_transport_header pkt ≡ ret none)
      ⊎ ((proto : ℕ) × (end : ℕ) × (n : ℕ) × (ipv6_transport_header pkt ≡ ret (some (proto, end)))
          × (n ≤ 7)
          × PacketChain pkt n proto end
          × (40 ≤ end)
          × (end ≤ length pkt))
ipv6_transport_header_sound pkt = elim (Bool-cases (ltb (length pkt) 40)) [
  | inl short ↦ inl (header_short pkt (ground arith))
  | inr long ↦
      rw (header_start pkt (ground arith))
        (from_walk (ground arith) (walk-Found 8 pkt (byte pkt 6) 40))
]
  where
    from_walk :
        40 ≤ length pkt
        → Found pkt 8 (byte pkt 6) 40 (walk 8 pkt (byte pkt 6) 40)
        → (walk 8 pkt (byte pkt 6) 40 ≡ ret none)
          ⊎ ((proto : ℕ) × (end : ℕ) × (n : ℕ) × (walk 8 pkt (byte pkt 6) 40
                ≡ ret (some (proto, end)))
              × (n ≤ 7)
              × PacketChain pkt n proto end
              × (40 ≤ end)
              × (end ≤ length pkt))
    from_walk long (inl e) = inl e
    from_walk long (inr (proto, end, n, e, h, c)) =
        let b = Chain-bounds c in inr (proto, end, n, e, omega arith, (long, c), b.0, b.1)

-- The walk finds the protocol and the offset of every packet whose chain has at most seven
-- extension headers, and gives up on every packet whose chain has more.
pub ipv6_transport_header_complete :
    (pkt : List ℕ) (n proto end : ℕ)
    → PacketChain pkt n proto end
    → ipv6_transport_header pkt ≡ ret (if leb n 7 then some (proto, end) else none)
ipv6_transport_header_complete pkt n proto end (long, c) = elim (Bool-cases (leb n 7)) [
  | inl few ↦ rw (few, header_start pkt long) (walk-Chain pkt 8 c (ground arith))
  | inr many ↦ rw (many, header_start pkt long) (walk-long pkt 8 c (ground arith))
]
