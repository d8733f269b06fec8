-- ===== src/Socks/Datagram/RoundTrip.antt =====
-- What `EncodeUDPDatagram` writes, and that `DecodeUDPDatagram` reads it back.
use mathlib.Core.List.{append_assoc, take, take-append-drop}
use teapod_tun2socks.Prelude.{
  ltb, length-drop, some, none, negsuc, ℕ, zero, suc, ◌+◌, ◌-◌, ◌/◌, ◌<◌, ℤ, pos, ◌≡◌, refl, ap,
  List, [], ◌∷◌, ◌++◌, length, drop, set, replicate, ret, be16, to_u8, int_to_u16, arith,
  length-append, length-replicate, ◌⊎◌, inl, true, inr, false, Bool-cases, ◌∙◌, sym, ◌≤◌, index_lem,
}
use teapod_tun2socks.Packet.Fields.{
  byte, store_lem, put_uint16, put_uint16_lem, copy_into-append_le, slice_lem, slice_from_lem,
  uint16-slice, take-append, drop-append,
}
use teapod_tun2socks.Socks.Address.{destination, to16, same_bytes, to4, mapped}
use teapod_tun2socks.Socks.Datagram.{encode_udp_datagram, decode_from, decoded, decode_udp_datagram}

get_or-append : (a b : List ℕ) (n i : ℕ) → n ≡ length a + i → byte (a ++ b) n ≡ byte b i
get_or-append [] b n i h = let e : n ≡ i = omega arith in rw e refl
get_or-append (x ∷ a) b n i h =
    let e : n ≡ suc (length a + i) = omega arith in rw e (get_or-append a b (length a + i) i refl)

set-append : (a b : List ℕ) (n i v : ℕ) → n ≡ length a + i → set (a ++ b) n v ≡ a ++ set b i v
set-append [] b n i v h = let e : n ≡ i = omega arith in rw e refl
set-append (x ∷ a) b n i v h =
    let e : n ≡ suc (length a + i) = omega arith in
    rw e (ap (◌∷◌ x) (set-append a b (length a + i) i v refl))

put_uint16-append :
    (a : List ℕ) (x y : ℕ) (b : List ℕ) (n v : ℕ)
    → n ≡ length a
    → put_uint16 (a ++ (x ∷ y ∷ b)) n v ≡ ret (a ++ (to_u8 (v / 256) ∷ to_u8 v ∷ b))
put_uint16-append a x y b n v h =
    rw
      (
        put_uint16_lem (a ++ (x ∷ y ∷ b)) n v (omega (arith, length-append a (x ∷ y ∷ b))),
        set-append a (x ∷ y ∷ b) n 0 (to_u8 (v / 256)) (omega arith),
        set-append a (to_u8 (v / 256) ∷ y ∷ b) (n + 1) 1 (to_u8 v) (omega arith),
      )
      refl

two_more : (n : ℕ) → replicate {A = ℕ} (suc (suc n)) 0 ≡ replicate n 0 ++ (0 ∷ 0 ∷ [])
two_more zero = refl
two_more (suc n) = ap (◌∷◌ 0) (two_more n)

header_zeros :
    (n : ℕ) → replicate {A = ℕ} (4 + n + 2) 0 ≡ 0 ∷ 0 ∷ 0 ∷ 0 ∷ (replicate n 0 ++ (0 ∷ 0 ∷ []))
header_zeros n =
    let e : 4 + n + 2 ≡ suc (suc (suc (suc (suc (suc n))))) = omega arith in
    rw e (ap (λ l. 0 ∷ 0 ∷ 0 ∷ 0 ∷ l) (two_more n))

-- The bytes of a datagram: two reserved bytes, no fragment, the address type, the address, the
-- port, the payload.
abbrev pub datagram : ℕ → List ℕ → ℕ → List ℕ → List ℕ
datagram atyp addr port payload =
    0 ∷ 0 ∷ 0 ∷ atyp ∷ (addr ++ (to_u8 (port / 256) ∷ to_u8 port ∷ payload))

append_tail : (a c : List ℕ) (x y : ℕ) → (a ++ (x ∷ y ∷ [])) ++ c ≡ a ++ (x ∷ y ∷ c)
append_tail [] c x y = refl
append_tail (z ∷ a) c x y = ap (◌∷◌ z) (append_tail a c x y)

pub encode_lem :
    (ip : List ℕ) (port : ℤ) (payload : List ℕ)
    → encode_udp_datagram ip port payload
      ≡ ret (datagram (destination ip).0 (destination ip).1 (int_to_u16 port) payload)
unfolding encode_udp_datagram
encode_lem ip port payload =
    let t = (destination ip).0 in
    let a = (destination ip).1 in
    let n = length a in
    let z : List ℕ = replicate n 0 ++ (0 ∷ 0 ∷ []) in
    rw
      (
        header_zeros n,
        store_lem (0 ∷ 0 ∷ 0 ∷ 0 ∷ z) 0 0 (omega arith),
        store_lem (0 ∷ 0 ∷ 0 ∷ 0 ∷ z) 1 0 (omega arith),
        store_lem (0 ∷ 0 ∷ 0 ∷ 0 ∷ z) 2 0 (omega arith),
        store_lem (0 ∷ 0 ∷ 0 ∷ 0 ∷ z) 3 t (omega arith),
        copy_into-append_le (0 ∷ 0 ∷ 0 ∷ t ∷ []) (replicate n 0) (0 ∷ 0 ∷ []) a 4 (4 + n + 2) refl
            (omega (arith, length-replicate {0} {A = ℕ} n 0))
            (omega (arith, length-replicate {0} {A = ℕ} n 0))
            (omega (arith, length-replicate {0} {A = ℕ} n 0)),
        put_uint16-append (0 ∷ 0 ∷ 0 ∷ t ∷ a) 0 0 [] (4 + n) (int_to_u16 port) (omega arith),
      )
      (ap (λ l. ret (0 ∷ 0 ∷ 0 ∷ t ∷ l))
        (append_tail a payload (to_u8 (int_to_u16 port / 256)) (to_u8 (int_to_u16 port))))

-- The fields behind an address that ends at `end`.
decode_from_lem :
    (atyp : ℕ) (addr : List ℕ) (port : ℕ) (payload : List ℕ) (end : ℕ)
    → port < 65536
    → end ≡ 4 + length addr
    → decode_from (datagram atyp addr port payload) end ≡ ret (decoded addr (pos port) payload)
unfolding decode_from
decode_from_lem atyp addr port payload end small h =
    let hi = to_u8 (port / 256) in
    let lo = to_u8 port in
    let tail = hi ∷ lo ∷ payload in
    let b = datagram atyp addr port payload in
    let four_more : end - 4 ≡ length addr = omega arith in
    let long : length b ≡ 4 + (length addr + (2 + length payload)) =
      omega (arith, length-append {0} addr tail) in
    let port_back : be16 hi lo ≡ port = omega arith in
    let high : byte b end ≡ hi = get_or-append (0 ∷ 0 ∷ 0 ∷ atyp ∷ addr) tail end 0 (omega arith) in
    let low : byte b (end + 1) ≡ lo =
      get_or-append (0 ∷ 0 ∷ 0 ∷ atyp ∷ addr) tail (end + 1) 1 (omega arith) in
    let rest : drop (end + 2) b ≡ payload =
      rw (← append_assoc (0 ∷ 0 ∷ 0 ∷ atyp ∷ addr) (hi ∷ lo ∷ []) payload) (
        drop-append ((0 ∷ 0 ∷ 0 ∷ atyp ∷ addr) ++ (hi ∷ lo ∷ [])) payload (end + 2)
          (omega (arith, length-append {0} addr (hi ∷ lo ∷ [])))) in
    rw
      (
        slice_lem b 4 end (omega arith) (omega arith),
        four_more,
        take-append addr tail,
        uint16-slice b end (end + 2) refl (omega arith),
        high,
        low,
        port_back,
        slice_from_lem b (end + 2) (omega arith),
        rest,
      )
      refl

-- An address of four or of sixteen bytes.
abbrev pub IsAddress : List ℕ → Type 0
IsAddress ip = (length ip ≡ 4) ⊎ (length ip ≡ 16)

pub same_bytes-eq : (a b : List ℕ) → same_bytes a b ≡ true → a ≡ b
same_bytes-eq [] [] h = refl
same_bytes-eq (x ∷ a) (y ∷ b) h =
    let rest : same_bytes a b ≡ true = ground arith in
    let first : x ≡ y = ground arith in let e : a ≡ b = same_bytes-eq a b rest in cc
same_bytes-eq [] (y ∷ b) h = absurd (ground arith)
same_bytes-eq (x ∷ a) [] h = absurd (ground arith)

to4_four : (ip : List ℕ) → length ip ≡ 4 → to4 ip ≡ some ip
unfolding to4
to4_four ip h = ground arith

to4-mapped :
    (ip : List ℕ)
    → length ip ≡ 16
    → same_bytes (take 12 ip) mapped ≡ true
    → to4 ip ≡ some (drop 12 ip)
unfolding to4
to4-mapped ip h m = ground arith

to4_sixteen :
    (ip : List ℕ) → length ip ≡ 16 → same_bytes (take 12 ip) mapped ≡ false → to4 ip ≡ none
unfolding to4
to4_sixteen ip h m = ground arith

pub to16_sixteen : (ip : List ℕ) → length ip ≡ 16 → to16 ip ≡ ip
unfolding to16
to16_sixteen ip h = ground arith

pub to16_four : (ip : List ℕ) → length ip ≡ 4 → to16 ip ≡ mapped ++ ip
unfolding to16
to16_four ip h = ground arith

destination-some : (ip v4 : List ℕ) → to4 ip ≡ some v4 → destination ip ≡ (1, v4)
unfolding destination
destination-some ip v4 h = rw (h, destination)

destination-none : (ip : List ℕ) → to4 ip ≡ none → destination ip ≡ (4, to16 ip)
unfolding destination
destination-none ip h = rw (h, destination)

-- The chosen form of an address: its type fits its length, and it is the same address.
abbrev pub IsFormOf : List ℕ → ℕ × List ℕ → Type 0
IsFormOf ip d =
    (((d.0 ≡ 1) × (length d.1 ≡ 4)) ⊎ ((d.0 ≡ 4) × (length d.1 ≡ 16))) × (to16 d.1 ≡ to16 ip)

pub destination-IsFormOf : (ip : List ℕ) → IsAddress ip → IsFormOf ip (destination ip)
destination-IsFormOf ip (inl h) = rw (destination-some ip ip (to4_four ip h)) (inl (refl, h), refl)
destination-IsFormOf ip (inr h) = elim (Bool-cases (same_bytes (take 12 ip) mapped)) [
  | inl m ↦
      let tail : length (drop 12 ip) ≡ 4 = omega (arith, length-drop {0} 12 ip) in
      let whole : mapped ++ drop 12 ip ≡ ip =
        rw (same_bytes-eq (take 12 ip) mapped m) at (take-append-drop 12 ip) in
      rw (destination-some ip (drop 12 ip) (to4-mapped ip h m))
        (inl (refl, tail), to16_four (drop 12 ip) tail ∙ whole ∙ sym (to16_sixteen ip h))
  | inr m ↦
      rw (destination-none ip (to4_sixteen ip h m), to16_sixteen ip h)
        (inr (refl, h), to16_sixteen ip h)
]

int_to_u16-lt : (n : ℤ) → int_to_u16 n < 65536
int_to_u16-lt (pos n) = omega arith
int_to_u16-lt (negsuc n) = omega arith

decode_ipv4 :
    (b : List ℕ)
    → 10 ≤ length b
    → byte b 2 ≡ 0
    → byte b 3 ≡ 1
    → decode_udp_datagram b ≡ decode_from b 8
unfolding decode_udp_datagram
decode_ipv4 b h f t =
    let short : ltb (length b) 4 ≡ false = ground arith in
    let shorter : ltb (length b) 10 ≡ false = ground arith in
    rw (short, index_lem b 2 0 (omega arith), f, index_lem b 3 0 (omega arith), t, shorter) refl

decode_ipv6 :
    (b : List ℕ)
    → 22 ≤ length b
    → byte b 2 ≡ 0
    → byte b 3 ≡ 4
    → decode_udp_datagram b ≡ decode_from b 20
unfolding decode_udp_datagram
decode_ipv6 b h f t =
    let short : ltb (length b) 4 ≡ false = ground arith in
    let shorter : ltb (length b) 22 ≡ false = ground arith in
    rw (short, index_lem b 2 0 (omega arith), f, index_lem b 3 0 (omega arith), t, shorter) refl

decode_lem :
    (atyp : ℕ) (addr : List ℕ) (port : ℕ) (payload : List ℕ)
    → port < 65536
    → ((atyp ≡ 1) × (length addr ≡ 4)) ⊎ ((atyp ≡ 4) × (length addr ≡ 16))
    → decode_udp_datagram (datagram atyp addr port payload) ≡ ret (decoded addr (pos port) payload)
decode_lem atyp addr port payload small (inl (t, h)) =
    let tail = to_u8 (port / 256) ∷ to_u8 port ∷ payload in
    decode_ipv4 (datagram atyp addr port payload) (omega (arith, length-append {0} addr tail)) refl
      t
    ∙ decode_from_lem atyp addr port payload 8 small (omega arith)
decode_lem atyp addr port payload small (inr (t, h)) =
    let tail = to_u8 (port / 256) ∷ to_u8 port ∷ payload in
    decode_ipv6 (datagram atyp addr port payload) (omega (arith, length-append {0} addr tail)) refl
      t
    ∙ decode_from_lem atyp addr port payload 20 small (omega arith)

-- For an address of four or sixteen bytes, the encoder returns a datagram, and the decoder reads
-- from it the same address, the port as a 16-bit number, and the payload.
pub datagram_round_trip :
    (ip : List ℕ) (port : ℤ) (payload : List ℕ)
    → IsAddress ip
    → (bytes : List ℕ) × (addr : List ℕ) × (encode_udp_datagram ip port payload ≡ ret bytes)
      × (decode_udp_datagram bytes ≡ ret (decoded addr (pos (int_to_u16 port)) payload))
      × (to16 addr ≡ to16 ip)
datagram_round_trip ip port payload h =
    let (sized, same) = destination-IsFormOf ip h in
    let d = destination ip in
    (
      datagram d.0 d.1 (int_to_u16 port) payload,
      d.1,
      encode_lem ip port payload,
      decode_lem d.0 d.1 (int_to_u16 port) payload (int_to_u16-lt port) sized,
      same,
    )
