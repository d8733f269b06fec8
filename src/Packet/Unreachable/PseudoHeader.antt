-- ===== src/Packet/Unreachable/PseudoHeader.antt =====
-- `buildICMPv6PortUnreachable`: the checksum that the receiver verifies.
use mathlib.Core.List.{append_assoc}
use teapod_tun2socks.Packet.Unreachable.{build_icmpv6_port_unreachable, ret, none, some}
use teapod_tun2socks.Prelude.{
  sym, length-append, ℕ, zero, suc, ◌+◌, ◌≤◌, ◌<◌, ◌≡◌, List, [], ◌∷◌, length, take, drop, to_u32,
  arith, AllBytes, be16, ◌++◌, length-take, AllBytes-take, length-append, sym, ap, false, ◌⊎◌, true,
  Bool-cases, inl, inr, ◌*◌, refl,
}
use teapod_tun2socks.Packet.Fields.{byte, take-append, drop-append, take-append, drop-append}
use teapod_tun2socks.Key.{protocol_icmpv6}
use teapod_tun2socks.Packet.Checksum.{complement16, fold_carries}
use teapod_tun2socks.Packet.Checksum.Laws.{
  word_sum, word_sum-le, add_words-word_sum, fold-complement,
}
use teapod_tun2socks.Packet.Unreachable.Message.{icmp}
use teapod_tun2socks.Packet.Unreachable.Ipv4.{icmp_fills}
use teapod_tun2socks.Packet.Unreachable.Ipv6.{
  address, pseudo_sum, quoted_ipv6, answer_ipv6, length-address, is_answered_ipv6,
  build_icmpv6_answers,
}

pseudo_sum_lem :
    (src dst message : List ℕ)
    → length src ≡ 16
    → length dst ≡ 16
    → AllBytes src
    → AllBytes dst
    → word_sum message ≤ 4000000
    → pseudo_sum src dst message ≡ word_sum src + word_sum dst + 114 + word_sum message
pseudo_sum_lem src dst message hs hd bs bd small =
    let s_le = word_sum-le src bs in
    let d_le = word_sum-le dst bd in
    let first = add_words-word_sum src 0 (omega arith) in
    let second = add_words-word_sum dst (0 + word_sum src) (omega arith) in
    let zeroth : 0 + word_sum src ≡ word_sum src = omega arith in
    let one : to_u32 (word_sum src + word_sum dst + 56) ≡ word_sum src + word_sum dst + 56 =
      omega arith in
    let two : to_u32 (word_sum src + word_sum dst + 56 + 58) ≡ word_sum src + word_sum dst + 114 =
      omega arith in
    rw (first, second, zeroth, one, two)
      (add_words-word_sum message (word_sum src + word_sum dst + 114) (omega arith))

AllBytes-drop : (n : ℕ) (b : List ℕ) → AllBytes b → AllBytes (drop n b)
AllBytes-drop zero b h = h
AllBytes-drop (suc n) [] h = tt
AllBytes-drop (suc n) (x ∷ b) h = AllBytes-drop n b h.1

message_sum-le :
    (c : ℕ) (body : List ℕ)
    → c < 65536
    → length body ≡ 48
    → AllBytes body
    → word_sum (icmp 1 4 c body) ≤ 4000000
unfolding word_sum
message_sum-le c body small h bytes = omega (arith, word_sum-le body bytes)

-- A good answer over IPv6: version 6, no traffic class and no flow label, ICMPv6 as the next header,
-- and a hop limit of 64.
pub record IsAnswerIpv6 (pkt out : List ℕ) : Type 0 where
  pub version : take 4 out ≡ 6 * 16 ∷ 0 ∷ 0 ∷ 0 ∷ []
  pub next_header : byte out 6 ≡ protocol_icmpv6
  pub hop_limit : byte out 7 ≡ 64
  pub whole : length out ≡ 40 + be16 (byte out 4) (byte out 5)
  pub from : take 16 (drop 8 out) ≡ address pkt 24
  pub to : take 16 (drop 24 out) ≡ address pkt 8
  pub verifies :
      complement16 (fold_carries (pseudo_sum (address pkt 24) (address pkt 8) (drop 40 out))) ≡ 0
  pub port_unreachable : take 2 (drop 40 out) ≡ 1 ∷ 4 ∷ []
  pub unused : take 4 (drop 4 (drop 40 out)) ≡ 0 ∷ 0 ∷ 0 ∷ 0 ∷ []
  pub quotes : drop 8 (drop 40 out) ≡ quoted_ipv6 pkt

pseudo_sum_fills :
    (src dst body : List ℕ) (c : ℕ)
    → length src ≡ 16
    → length dst ≡ 16
    → length body ≡ 48
    → AllBytes src
    → AllBytes dst
    → AllBytes body
    → c < 65536
    → pseudo_sum src dst (icmp 1 4 c body) ≡ pseudo_sum src dst (icmp 1 4 0 body) + c
pseudo_sum_fills src dst body c hs hd hb bs bd bb small = omega (
  arith,
  pseudo_sum_lem src dst (icmp 1 4 c body) hs hd bs bd (message_sum-le c body small hb bb),
  pseudo_sum_lem src dst (icmp 1 4 0 body) hs hd bs bd (message_sum-le 0 body (omega arith) hb bb),
  icmp_fills 1 4 c body small,
)

take_first : (a b : List ℕ) → length a ≡ 16 → take 16 (a ++ b) ≡ a
take_first a b h = rw (← h) (take-append a b)

drop_both : (a b c : List ℕ) → length a ≡ 16 → length b ≡ 16 → drop 32 (a ++ (b ++ c)) ≡ c
drop_both a b c h k =
    rw (← append_assoc a b c) (drop-append (a ++ b) c 32 (omega (arith, length-append {0} a b)))

answer_ipv6-IsAnswerIpv6 :
    (pkt : List ℕ) → AllBytes pkt → 48 ≤ length pkt → IsAnswerIpv6 pkt (answer_ipv6 pkt)
answer_ipv6-IsAnswerIpv6 pkt bytes h =
    let src = address pkt 24 in
    let dst = address pkt 8 in
    let quoted = quoted_ipv6 pkt in
    let zeroed = pseudo_sum src dst (icmp 1 4 0 quoted) in
    let c = complement16 (fold_carries zeroed) in
    let message = icmp 1 4 c quoted in
    let hs = length-address pkt 24 (omega arith) in
    let hd = length-address pkt 8 (omega arith) in
    let hq : length quoted ≡ 48 = omega (arith, length-take {0} 48 pkt) in
    let bs = AllBytes-take 16 (drop 24 pkt) (AllBytes-drop 24 pkt bytes) in
    let bd = AllBytes-take 16 (drop 8 pkt) (AllBytes-drop 8 pkt bytes) in
    let body : drop 32 (src ++ (dst ++ message)) ≡ message = drop_both src dst message hs hd in
    let filled =
      pseudo_sum_fills src dst quoted c hs hd hq bs bd (AllBytes-take 48 pkt bytes) (omega arith) in
    record {
      version = refl;
      next_header = refl;
      hop_limit = refl;
      whole = omega (arith, length-append {0} src (dst ++ message), length-append {0} dst message);
      from = take_first src (dst ++ message) hs;
      to = rw (drop-append src (dst ++ message) 16 (sym hs)) (take_first dst message hd);
      verifies = rw (body, filled) (fold-complement zeroed);
      port_unreachable = ap (take 2) body;
      unused = ap (λ b. take 4 (drop 4 b)) body;
      quotes = ap (drop 8) body;
    }

-- For every packet the builder returns, and it answers exactly the packets of 48 bytes or more whose
-- next header is UDP. The answer is one IPv6 datagram: version 6, no traffic class and flow label,
-- next header ICMPv6, and a hop limit of 64; its payload length is right, it goes from the
-- packet's destination to the packet's source, the checksum of its message over the pseudo-header
-- comes out right at the receiver, and the message is a Port Unreachable that quotes the first 48
-- bytes of the packet.
pub build_icmpv6_verifies :
    (pkt : List ℕ)
    → AllBytes pkt
    → ((is_answered_ipv6 pkt ≡ false) × (build_icmpv6_port_unreachable pkt ≡ ret none))
      ⊎ ((out : List ℕ) × (is_answered_ipv6 pkt ≡ true)
          × (build_icmpv6_port_unreachable pkt ≡ ret (some out))
          × IsAnswerIpv6 pkt out)
build_icmpv6_verifies pkt bytes = elim (Bool-cases (is_answered_ipv6 pkt)) [
  | inl ok ↦ inr (
    answer_ipv6 pkt,
    ok,
    rw ok at (build_icmpv6_answers pkt),
    answer_ipv6-IsAnswerIpv6 pkt bytes (ground arith),
  )
  | inr no_udp ↦ inl (no_udp, rw no_udp at (build_icmpv6_answers pkt))
]
