-- ===== src/Socks/Datagram/Decisions.antt =====
-- Which datagrams `DecodeUDPDatagram` accepts, and what it reads from them.
use teapod_tun2socks.Prelude.{
  ℕ, ◌+◌, ◌-◌, ◌≤◌, ◌≡◌, refl, pos, List, take, drop, length, be16, false, ltb, ◌==◌, ret,
  Bool-cases, index_lem, inl, inr, arith,
}
use teapod_tun2socks.Packet.Fields.{byte, uint16-slice, slice_lem, slice_from_lem}
use teapod_tun2socks.Socks.Datagram.{
  DecodeError, Decoded, decoded, refused, decode_from, decode_udp_datagram, too_short,
  ipv4_too_short, ipv6_too_short, fragmented, unsupported_atyp,
}

-- A whole datagram that is no fragment, with an address of `n` bytes of the type `atyp`. (Go does
-- not look at the two reserved bytes.)
abbrev pub IsDatagram : ℕ → ℕ → List ℕ → Type 0
IsDatagram atyp n b = (6 + n ≤ length b) × (byte b 2 ≡ 0) × (byte b 3 ≡ atyp)

-- The fields of a datagram whose address has `n` bytes.
abbrev pub fields : ℕ → List ℕ → Decoded
fields n b =
    decoded (take n (drop 4 b)) (pos (be16 (byte b (4 + n)) (byte b (4 + n + 1)))) (drop (6 + n) b)

decode_from-fields :
    (n : ℕ) (b : List ℕ) → 6 + n ≤ length b → decode_from b (4 + n) ≡ ret (fields n b)
unfolding decode_from
decode_from-fields n b h =
    let width : 4 + n - 4 ≡ n = omega arith in
    let end : 4 + n + 2 ≡ 6 + n = omega arith in
    rw
      (
        slice_lem b 4 (4 + n) (omega arith) (omega arith),
        width,
        uint16-slice b (4 + n) (4 + n + 2) refl (omega arith),
        slice_from_lem b (4 + n + 2) (omega arith),
        end,
      )
      refl

-- What the decoder makes of a datagram.
pub data Decision (b : List ℕ) : Type 0 where
  ipv4 : IsDatagram 1 4 b → decode_udp_datagram b ≡ ret (fields 4 b) → Decision b
  ipv6 : IsDatagram 4 16 b → decode_udp_datagram b ≡ ret (fields 16 b) → Decision b
  none_of_them :
      (e : DecodeError)
      → ¬ IsDatagram 1 4 b
      → ¬ IsDatagram 4 16 b
      → decode_udp_datagram b ≡ ret (refused e)
      → Decision b

address_decision : (b : List ℕ) → 4 ≤ length b → byte b 2 ≡ 0 → Decision b
unfolding decode_udp_datagram
address_decision b long whole =
    let enough : ltb (length b) 4 ≡ false = ground arith in
    elim (Bool-cases (byte b 3 == 1)) [
      | inl v4 ↦ elim (Bool-cases (ltb (length b) 10)) [
        | inl short ↦
            none_of_them ipv4_too_short (λ d. ground (arith, d)) (λ d. ground (arith, d))
              (rw
                (
                  enough,
                  index_lem b 2 0 (omega arith),
                  whole,
                  index_lem b 3 0 (omega arith),
                  v4,
                  short,
                )
                refl)
        | inr fits ↦
            ipv4 (ground arith, whole, ground arith)
              (rw
                (
                  enough,
                  index_lem b 2 0 (omega arith),
                  whole,
                  index_lem b 3 0 (omega arith),
                  v4,
                  fits,
                )
                (decode_from-fields 4 b (ground arith)))
      ]
      | inr not_v4 ↦ elim (Bool-cases (byte b 3 == 4)) [
        | inl v6 ↦ elim (Bool-cases (ltb (length b) 22)) [
          | inl short ↦
              none_of_them ipv6_too_short (λ d. ground (arith, d)) (λ d. ground (arith, d))
                (rw
                  (
                    enough,
                    index_lem b 2 0 (omega arith),
                    whole,
                    index_lem b 3 0 (omega arith),
                    not_v4,
                    v6,
                    short,
                  )
                  refl)
          | inr fits ↦
              ipv6 (ground arith, whole, ground arith)
                (rw
                  (
                    enough,
                    index_lem b 2 0 (omega arith),
                    whole,
                    index_lem b 3 0 (omega arith),
                    not_v4,
                    v6,
                    fits,
                  )
                  (decode_from-fields 16 b (ground arith)))
        ]
        | inr other ↦
            none_of_them (unsupported_atyp (byte b 3)) (λ d. ground (arith, d))
              (λ d. ground (arith, d))
              (rw
                (
                  enough,
                  index_lem b 2 0 (omega arith),
                  whole,
                  index_lem b 3 0 (omega arith),
                  not_v4,
                  other,
                )
                refl)
      ]
    ]

-- For any bytes DecodeUDPDatagram returns: the fields, if it is an unfragmented datagram with an
-- address of four bytes of type 1 or of sixteen bytes of type 4 and a port; otherwise an error.
pub decode_decides : (b : List ℕ) → Decision b
unfolding decode_udp_datagram
decode_decides b = elim (Bool-cases (ltb (length b) 4)) [
  | inl short ↦
      none_of_them too_short (λ d. ground (arith, d)) (λ d. ground (arith, d))
        (rw (short, decode_udp_datagram) refl)
  | inr enough ↦ elim (Bool-cases (byte b 2 == 0)) [
    | inl whole ↦ address_decision b (ground arith) (ground arith)
    | inr part ↦
        none_of_them (fragmented (byte b 2)) (λ d. ground (arith, d)) (λ d. ground (arith, d))
          (rw (enough, index_lem b 2 0 (ground arith), part) refl)
  ]
]
