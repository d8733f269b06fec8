-- ===== src/Packet/Unreachable/Message.antt =====
-- The ICMPv4 message and the IPv4 datagram that the builder fills, byte by byte.
use mathlib.Core.List.{set}
use teapod_tun2socks.Prelude.{
  ℕ, suc, ◌+◌, ◌/◌, ◌≤◌, ◌≡◌, refl, List, [], ◌∷◌, length, replicate, take, ret, to_u8, arith,
  length-take, length-replicate, ◌-◌, ◌++◌,
}
use teapod_tun2socks.Packet.Fields.{
  copy_into, store_lem, put_uint16_lem, copy_into-append, slice_lem, copy_into_end, four,
  slice-four,
}
use teapod_tun2socks.Packet.Checksum.{internet_checksum}
use teapod_tun2socks.Packet.Unreachable.{icmpv4_message, ipv4_datagram, to_u16}

-- An ICMP message (RFC 792, RFC 4443): type, code, checksum, four unused bytes, the quoted packet.
abbrev pub icmp : ℕ → ℕ → ℕ → List ℕ → List ℕ
icmp kind code checksum quoted =
    kind ∷ code ∷ to_u8 (checksum / 256) ∷ to_u8 checksum ∷ 0 ∷ 0 ∷ 0 ∷ 0 ∷ quoted

-- `make([]byte, 8+n)`
pub eight_zeros :
    (n : ℕ) → replicate {A = ℕ} (8 + n) 0 ≡ 0 ∷ 0 ∷ 0 ∷ 0 ∷ 0 ∷ 0 ∷ 0 ∷ 0 ∷ replicate n 0
eight_zeros n =
    let e : 8 + n ≡ suc (suc (suc (suc (suc (suc (suc (suc n))))))) = omega arith in rw e refl

-- The body is copied behind the eight bytes of the header.
pub copy_quoted :
    (kind code : ℕ) (quoted : List ℕ) (n : ℕ)
    → length quoted ≡ n
    → copy_into (icmp kind code 0 (replicate n 0)) 8 (8 + n) quoted ≡ ret (icmp kind code 0 quoted)
copy_quoted kind code quoted n h =
    copy_into_end (icmp kind code 0 []) (replicate n 0) quoted 8 (8 + n) refl
      (omega (arith, length-replicate {0} {A = ℕ} n 0))
      (omega (arith, length-replicate {0} {A = ℕ} n 0))

pub icmpv4_message_lem :
    (pkt : List ℕ) (n : ℕ)
    → n ≤ length pkt
    → icmpv4_message pkt n
      ≡ ret (icmp 3 3 (internet_checksum (icmp 3 3 0 (take n pkt))) (take n pkt))
unfolding icmpv4_message
icmpv4_message_lem pkt n h =
    let z : List ℕ = replicate n 0 in
    let minus : n - 0 ≡ n = omega arith in
    let quoted = take n pkt in
    let long : length quoted ≡ n = omega (arith, length-take {0} n pkt) in
    let m : List ℕ = icmp 3 3 0 quoted in
    rw
      (
        eight_zeros n,
        store_lem (icmp 0 0 0 z) 0 3 (omega arith),
        store_lem (icmp 3 0 0 z) 1 3 (omega arith),
        slice_lem pkt 0 n (omega arith) h,
        minus,
        copy_quoted 3 3 quoted n long,
        put_uint16_lem m 2 (internet_checksum m) (omega arith),
      )
      refl

-- An IPv4 header of 20 bytes (RFC 791), for the four bytes of each address in lists.
abbrev pub ipv4 : ℕ → ℕ → List ℕ → List ℕ → List ℕ → List ℕ
ipv4 total checksum src dst payload =
    0x45
    ∷ 0
    ∷ to_u8 (total / 256)
    ∷ to_u8 total
    ∷ 0
    ∷ 0
    ∷ 0
    ∷ 0
    ∷ 64
    ∷ 1
    ∷ to_u8 (checksum / 256)
    ∷ to_u8 checksum
    ∷ (src ++ (dst ++ payload))

abbrev ipv4_zeros : List ℕ → List ℕ
ipv4_zeros payload =
    0 ∷ 0 ∷ 0 ∷ 0 ∷ 0 ∷ 0 ∷ 0 ∷ 0 ∷ 0 ∷ 0 ∷ 0 ∷ 0 ∷ 0 ∷ 0 ∷ 0 ∷ 0 ∷ 0 ∷ 0 ∷ 0 ∷ 0 ∷ payload

twenty_zeros : (n : ℕ) → replicate {A = ℕ} (20 + n) 0 ≡ ipv4_zeros (replicate n 0)
twenty_zeros n =
    let e : 20 + n ≡ suc (suc (suc (suc (suc (suc (suc (suc (suc (suc (suc (suc (8 + n)))))))))))) =
      omega arith in
    rw (e, eight_zeros n) refl

pub ipv4_datagram_lem :
    (pkt message : List ℕ) (n : ℕ)
    → 20 ≤ length pkt
    → length message ≡ n
    → ipv4_datagram pkt message n
      ≡ ret (
          ipv4
            (to_u16 (20 + n))
            (internet_checksum (ipv4 (to_u16 (20 + n)) 0 (four pkt 16) (four pkt 12) []))
            (four pkt 16)
            (four pkt 12)
            message)
unfolding ipv4_datagram
ipv4_datagram_lem pkt message n long e =
    let z : List ℕ = replicate n 0 in
    let total = to_u16 (20 + n) in
    let none4 : List ℕ = 0 ∷ 0 ∷ 0 ∷ 0 ∷ [] in
    let start : List ℕ = ipv4_zeros z in
    let b1 : List ℕ = set start 0 0x45 in
    let b2 : List ℕ = set (set b1 2 (to_u8 (total / 256))) 3 (to_u8 total) in
    let b3 : List ℕ = set b2 8 64 in
    let b4 : List ℕ = ipv4 total 0 none4 none4 z in
    let b5 : List ℕ = ipv4 total 0 (four pkt 16) none4 z in
    let b6 : List ℕ = ipv4 total 0 (four pkt 16) (four pkt 12) z in
    let header : List ℕ = ipv4 total 0 (four pkt 16) (four pkt 12) [] in
    let c = internet_checksum header in
    rw
      (
        twenty_zeros n,
        store_lem start 0 0x45 (omega arith),
        put_uint16_lem b1 2 total (omega arith),
        store_lem b2 8 64 (omega arith),
        store_lem b3 9 1 (omega arith),
        slice-four pkt 16 20 refl long,
        copy_into-append (ipv4 total 0 [] [] []) none4 (none4 ++ z) (four pkt 16) 12 16 refl refl
            refl,
        slice-four pkt 12 16 refl (omega arith),
        copy_into-append (ipv4 total 0 (four pkt 16) [] []) none4 z (four pkt 12) 16 20 refl refl
            refl,
        slice_lem b6 0 20 (omega arith) (omega arith),
        put_uint16_lem b6 10 c (omega arith),
        copy_into_end (ipv4 total c (four pkt 16) (four pkt 12) []) z message 20 (20 + n) refl
            (omega (arith, length-replicate {0} {A = ℕ} n 0))
            (omega (arith, length-replicate {0} {A = ℕ} n 0)),
      )
      refl
