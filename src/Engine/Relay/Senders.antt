-- ===== src/Engine/Relay/Senders.antt =====
-- Which datagrams the receiving loop of `pipeUDP` takes for answers, and what becomes of them.
use teapod_tun2socks.Prelude.{
  ℕ, ◌+◌, ◌≤◌, ◌≡◌, refl, sym, ap, ℤ, List, [], ◌∷◌, ◌++◌, true, ◌&&◌, ◌==◌, some, ret, inl, inr,
  ◌↔◌, Bool-cases, length, arith, take_of_length-le, length-append, ◌∙◌, pos, int_to_u16, drop,
  ret-injective, to_u8, ◌/◌,
}
use teapod_tun2socks.Socks.Address.{same_bytes, mapped, to16, destination}
use teapod_tun2socks.Socks.Datagram.{encode_udp_datagram, decode_udp_datagram, decoded}
use teapod_tun2socks.Socks.Datagram.RoundTrip.{
  IsAddress, same_bytes-eq, to16_four, to16_sixteen, datagram, encode_lem, destination-IsFormOf,
  datagram_round_trip,
}
use teapod_tun2socks.Engine.Relay.{UdpAddr, Config, Udp, ip_equal, is_relay, answer, receive_round}

same_bytes_refl : (a : List ℕ) → same_bytes a a ≡ true
same_bytes_refl [] = refl
same_bytes_refl (x ∷ a) = let rest = same_bytes_refl a in ground arith

eq-same_bytes : (a b : List ℕ) → a ≡ b → same_bytes a b ≡ true
eq-same_bytes a b h = rw (← h) (same_bytes_refl a)

same_bytes-length : (a b : List ℕ) → same_bytes a b ≡ true → length a ≡ length b
same_bytes-length a b h = ap length (same_bytes-eq a b h)

to16-ip_equal : (a b : List ℕ) → IsAddress a → IsAddress b → to16 a ≡ to16 b → ip_equal a b ≡ true
unfolding ip_equal
to16-ip_equal a b (inl ha) (inl hb) h =
    let forms : mapped ++ a ≡ mapped ++ b = sym (to16_four a ha) ∙ h ∙ to16_four b hb in
    let same = eq-same_bytes a b (ap (drop 12) forms) in rw (same) refl
to16-ip_equal a b (inl ha) (inr hb) h =
    let same = eq-same_bytes (mapped ++ a) b (sym (to16_four a ha) ∙ h ∙ to16_sixteen b hb) in
    ground arith
to16-ip_equal a b (inr ha) (inl hb) h =
    let same = eq-same_bytes a (mapped ++ b) (sym (to16_sixteen a ha) ∙ h ∙ to16_four b hb) in
    ground arith
to16-ip_equal a b (inr ha) (inr hb) h =
    let same = eq-same_bytes a b (sym (to16_sixteen a ha) ∙ h ∙ to16_sixteen b hb) in rw (same) refl

-- The forms of an address of four bytes and of one of sixteen bytes.
mapped-to16 : (a b : List ℕ) → length a ≡ 4 → same_bytes (mapped ++ a) b ≡ true → to16 a ≡ to16 b
mapped-to16 a b ha h =
    let whole : mapped ++ a ≡ b = same_bytes-eq (mapped ++ a) b h in
    let long : length b ≡ 16 = rw (← whole) (omega arith) in
    to16_four a ha ∙ whole ∙ sym (to16_sixteen b long)

same_bytes_sym : (a b : List ℕ) → same_bytes a b ≡ true → same_bytes b a ≡ true
same_bytes_sym a b h = eq-same_bytes b a (sym (same_bytes-eq a b h))

ip_equal-to16 : (a b : List ℕ) → ip_equal a b ≡ true → to16 a ≡ to16 b
unfolding ip_equal
ip_equal-to16 a b h = elim (Bool-cases (same_bytes a b)) [
  | inl same ↦ ap to16 (same_bytes-eq a b same)
  | inr differ ↦ elim (Bool-cases ((length a == 4) && same_bytes (mapped ++ a) b)) [
    | inl left_mapped ↦ mapped-to16 a b (ground arith) (ground arith)
    | inr neither ↦
        let right_mapped : ((length b == 4) && same_bytes a (mapped ++ b)) ≡ true =
          rw (differ, neither, ip_equal) at h in
        sym (mapped-to16 b a (ground arith) (same_bytes_sym a (mapped ++ b) (ground arith)))
  ]
]

-- For addresses of four or sixteen bytes: a datagram is taken for an answer exactly if it comes from
-- the port of the relay and from its address, in either form.
pub is_relay_iff :
    (c : Config) (from : UdpAddr)
    → IsAddress from.ip
    → IsAddress c.relay.ip
    → (is_relay c (some from) ≡ true)
      ↔ ((to16 from.ip ≡ to16 c.relay.ip) × (from.port ≡ c.relay.port))
unfolding is_relay
is_relay_iff c from hf hr = (
  λ h.
      let same : ip_equal from.ip c.relay.ip ≡ true = ground arith in
      (ip_equal-to16 from.ip c.relay.ip same, ground arith),
  λ h.
      let same = to16-ip_equal from.ip c.relay.ip hf hr h.0 in
      let port = h.1 in rw (same, is_relay) (ground arith),
)

length-datagram :
    (ip payload bytes : List ℕ) (port : ℤ)
    → IsAddress ip
    → encode_udp_datagram ip port payload ≡ ret bytes
    → length bytes ≤ length payload + 22
length-datagram ip payload bytes port h made =
    let d = destination ip in
    let (sized, same) = destination-IsFormOf ip h in
    let eq : bytes ≡ datagram d.0 d.1 (int_to_u16 port) payload =
      ret-injective _ _ (sym made ∙ encode_lem ip port payload) in
    let total =
      length-append {0} d.1 (to_u8 (int_to_u16 port / 256) ∷ to_u8 (int_to_u16 port) ∷ payload) in
    rw eq (elim sized [ inl v4 ↦ omega (arith) | inr v6 ↦ omega arith ])

-- The relay wraps an answer for the app, from an address of four or sixteen bytes and a payload
-- that fits into a packet of the device. Then the round writes that very payload to the app: the
-- buffer is large enough for the header.
pub receive_round_answer :
    (c : Config) (from : UdpAddr) (ip payload bytes : List ℕ) (port : ℤ) (f : Udp)
    → is_relay c (some from) ≡ true
    → IsAddress ip
    → length payload ≤ c.mtu
    → encode_udp_datagram ip port payload ≡ ret bytes
    → receive_round c (some (bytes, some from)) true f
      ≡ ret (record f { delivered = f.delivered ++ (payload ∷ []) })
unfolding receive_round answer
receive_round_answer c from ip payload bytes port f genuine h fits made =
    let short = length-datagram ip payload bytes port h made in
    let whole = take_of_length-le (c.mtu + 22) bytes (omega arith) in
    let (other, addr, made', read, same) = datagram_round_trip ip port payload h in
    let eq : other ≡ bytes = ret-injective other bytes (sym made' ∙ made) in
    let read' : decode_udp_datagram bytes ≡ ret (decoded addr (pos (int_to_u16 port)) payload) =
      rw eq at read in
    rw (genuine, whole, read', receive_round) refl
