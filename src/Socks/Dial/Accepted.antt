-- ===== src/Socks/Dial/Accepted.antt =====
-- What the proxy has sent when `DialTCP` succeeds, whatever it can send.
use teapod_tun2socks.Socks.Dial.{dial_tcp}
use teapod_tun2socks.Socks.Client.Replies.{
  BindAddress, ipv4_address, ipv6_address, domain_name, bind_type, bind_bytes, Greeting, greeting,
  reply,
}
use teapod_tun2socks.Socks.Client.{
  Socks5Client, read_host, read_socks_address, send_connect, connect_request,
}
use teapod_tun2socks.Packet.Fields.{byte}
use mathlib.Core.List.{append-nil}
use teapod_tun2socks.Prelude.{
  ℕ, ◌≡◌, refl, sym, ap, ◌∙◌, List, [], ◌∷◌, ◌++◌, length, true, false, Option, some, arith, not,
  ◌==◌, Option-cases, inl, inr, be16, ℤ,
}
use teapod_tun2socks.Socks.Stream.{Conn, Out, done}
use teapod_tun2socks.Socks.Dial.Reads.{
  Reads, done-Reads, failed-Reads, >>=-Reads, if-Reads, IsWhole, read_full-Reads, IsNothing,
  write-Reads, set_deadline-Reads, two_bytes, four_bytes, Reads-weaken, or_close-Reads, some-Reads,
  IsGreeting, handshake-Reads,
}

-- The lengths of an address.
abbrev pub IsSized : BindAddress → Type 0
IsSized (ipv4_address a) = length a ≡ 4
IsSized (ipv6_address a) = length a ≡ 16
IsSized (domain_name d) = Unit

-- A length byte, and as many bytes more.
one_read : (len x y : List ℕ) → IsWhole 1 len x → length y ≡ byte len 0 → x ++ y ≡ length y ∷ y
one_read len [] y whole sized = absurd (omega (arith, whole.1))
one_read len (b ∷ []) y whole sized =
    let first : byte len 0 ≡ b = rw (whole.0) refl in ap (λ z. z ∷ y) (sym (sized ∙ first))
one_read len (b ∷ b' ∷ x) y whole sized = absurd (omega (arith, whole.1))

-- The parts of a reply of success.
reply_read :
    (hdr x y z port_buf : List ℕ) (a : BindAddress)
    → IsWhole 4 hdr x
    → IsWhole 2 port_buf z
    → byte hdr 0 ≡ 5
    → byte hdr 1 ≡ 0
    → bind_type a ≡ byte hdr 3
    → y ≡ bind_bytes a
    → x ++ (y ++ (z ++ [])) ≡ reply (byte hdr 2) a (byte port_buf 0) (byte port_buf 1)
reply_read hdr x y z port_buf a head tail version success atyp host =
    let front : x ≡ 5 ∷ 0 ∷ byte hdr 2 ∷ bind_type a ∷ [] =
      sym (head.0) ∙ four_bytes hdr (rw (head.0) head.1) ∙ rw (version, success, ← atyp) refl in
    let back : z ++ [] ≡ byte port_buf 0 ∷ byte port_buf 1 ∷ [] =
      append-nil z ∙ sym (tail.0) ∙ two_bytes port_buf (rw (tail.0) tail.1) in
    rw (front, back, host) refl

module _ (ip_text : List ℕ → List ℕ) (decimal : ℕ → List ℕ) where
  -- The text of an address.
  abbrev pub host_text : BindAddress → List ℕ
  host_text (ipv4_address a) = ip_text a
  host_text (ipv6_address a) = ip_text a
  host_text (domain_name d) = d

  abbrev IsHost : ℕ → List ℕ → List ℕ → Type 0
  IsHost atyp host x =
      (a : BindAddress) × IsSized a
      × (bind_type a ≡ atyp)
      × (x ≡ bind_bytes a)
      × (host ≡ host_text a)

  read_host-Reads : (atyp : ℕ) (c : Conn) → Reads (IsHost atyp) c (read_host ip_text decimal atyp c)
  unfolding read_host
  read_host-Reads atyp c =
      if-Reads (IsHost atyp) c (atyp == 1) _ _
        (λ v4. >>=-Reads (IsWhole 4) (IsHost atyp) c _ _ (read_full-Reads 4 c) (λ addr d x whole.
          done-Reads _ d d (ip_text addr) refl
            (ipv4_address x, whole.1, ground arith, append-nil x, ap ip_text (whole.0))))
        (λ _.
          if-Reads (IsHost atyp) c (atyp == 4) _ _
            (λ v6.
              >>=-Reads (IsWhole 16) (IsHost atyp) c _ _ (read_full-Reads 16 c) (λ addr d x whole.
                done-Reads _ d d (ip_text addr) refl
                  (ipv6_address x, whole.1, ground arith, append-nil x, ap ip_text (whole.0))))
            (λ _.
              if-Reads (IsHost atyp) c (atyp == 3) _ _
                (λ name.
                  >>=-Reads (IsWhole 1) (IsHost atyp) c _ _ (read_full-Reads 1 c) (λ len d x whole.
                    Reads-weaken (IsWhole (byte len 0)) _ d _
                      (λ host y sized.
                        (domain_name y, tt, ground arith, one_read len x y whole sized.1, sized.0))
                      (read_full-Reads (byte len 0) d)))
                (λ _. failed-Reads _ c c _)))

  -- A reply of success.
  abbrev IsReply : {A : Type 0} → A → List ℕ → Type 0
  IsReply a x =
      (rsv : ℕ) × (b : BindAddress) × (hi : ℕ) × (lo : ℕ) × IsSized b × (x ≡ reply rsv b hi lo)

  -- A reply of success, and the text of its address.
  abbrev pub IsNamed : List ℕ → List ℕ → Type 0
  IsNamed address x =
      (rsv : ℕ) × (b : BindAddress) × (hi : ℕ) × (lo : ℕ) × IsSized b
      × (x ≡ reply rsv b hi lo)
      × (address ≡ host_text b ++ (58 ∷ decimal (be16 hi lo)))

  pub read_socks_address-Reads : (c : Conn) → Reads IsNamed c (read_socks_address ip_text decimal c)
  unfolding read_socks_address
  read_socks_address-Reads c =
      >>=-Reads (IsWhole 4) IsNamed c _ _ (read_full-Reads 4 c) (λ hdr d x whole.
        if-Reads _ d (not (byte hdr 0 == 5)) _ _ (λ _. failed-Reads _ d d _)
          (λ version.
            if-Reads _ d (not (byte hdr 1 == 0)) _ _ (λ _. failed-Reads _ d d _)
              (λ success.
                >>=-Reads (IsHost (byte hdr 3)) _ d _ _ (read_host-Reads (byte hdr 3) d)
                  (λ host e y named.
                    >>=-Reads (IsWhole 2) _ e _ _ (read_full-Reads 2 e) (λ port_buf f z sized.
                      done-Reads _ f f
                        (host ++ (58 ∷ decimal (be16 (byte port_buf 0) (byte port_buf 1)))) refl
                        (
                          byte hdr 2,
                          named.0,
                          byte port_buf 0,
                          byte port_buf 1,
                          named.1,
                          reply_read hdr x y z port_buf named.0 whole sized (ground arith)
                              (ground arith) named.2 named.3,
                          ap (λ h. h ++ (58 ∷ decimal (be16 (byte port_buf 0) (byte port_buf 1))))
                              named.4,
                        ))))))

  send_connect-Reads :
      (parse_ip : List ℕ → Option (List ℕ)) (c : Conn) (dst_ip : List ℕ) (dst_port : ℤ)
      → Reads IsReply c (send_connect ip_text decimal parse_ip c dst_ip dst_port)
  unfolding send_connect
  send_connect-Reads parse_ip c dst_ip dst_port = elim (Option-cases (parse_ip dst_ip)) [
    | inl no_address ↦ rw (no_address, send_connect) (failed-Reads IsReply c c _)
    | inr (ip, parsed) ↦
        rw (parsed, send_connect)
          (>>=-Reads IsNothing IsReply c _ _ (write-Reads (connect_request ip dst_port) c)
            (λ _ d x empty.
              >>=-Reads IsNamed _ d _ _ (read_socks_address-Reads d) (λ addr e y answer.
                done-Reads _ e e tt refl (
                  answer.0,
                  answer.1,
                  answer.2,
                  answer.3,
                  answer.4,
                  rw (empty) (append-nil y ∙ answer.5),
                ))))
  ]

  -- An acceptance, and a reply of success.
  abbrev IsAccepted : {A : Type 0} → A → List ℕ → Type 0
  IsAccepted r x =
      (g : Greeting) × (rsv : ℕ) × (a : BindAddress) × (hi : ℕ) × (lo : ℕ) × IsSized a
      × (x ≡ greeting g ++ reply rsv a hi lo)

  dialled-Reads :
      (parse_ip : List ℕ → Option (List ℕ)) (s : Socks5Client) (c : Conn) (dst_ip : List ℕ)
      (dst_port : ℤ) (m : Out (Unit {0}))
      → dial_tcp ip_text decimal parse_ip s (some c) dst_ip dst_port ≡ some m
      → Reads IsAccepted c m
  unfolding dial_tcp
  dialled-Reads parse_ip s c dst_ip dst_port m ran = some-Reads IsAccepted c _ m ran (
      or_close-Reads IsAccepted c _ (
        >>=-Reads IsNothing IsAccepted c _ _ (set_deadline-Reads true c) (λ _ e x empty.
          >>=-Reads IsGreeting _ e _ _ (handshake-Reads s e) (λ _ f y accepted.
            >>=-Reads IsReply _ f _ _ (send_connect-Reads parse_ip f dst_ip dst_port)
              (λ _ h z answered.
                Reads-weaken IsNothing _ h _
                  (λ _ w silent. (
                    accepted.0,
                    answered.0,
                    answered.1,
                    answered.2,
                    answered.3,
                    answered.4,
                    rw (empty, silent, append-nil z, accepted.1, answered.5) refl,
                  ))
                  (set_deadline-Reads false h))))))

  -- If `DialTCP` succeeds on any stream of bytes and any connection, the stream begins with an
  -- acceptance of the client (without a password, or with the right one) and a reply of success to
  -- the request, with an address of one of the three types; and what follows is left unread.
  pub dial_tcp_accepted :
      (parse_ip : List ℕ → Option (List ℕ)) (s : Socks5Client) (c d : Conn) (dst_ip : List ℕ)
      (dst_port : ℤ)
      → dial_tcp ip_text decimal parse_ip s (some c) dst_ip dst_port ≡ some (done tt d)
      → (g : Greeting) × (rsv : ℕ) × (a : BindAddress) × (hi : ℕ) × (lo : ℕ) × IsSized a
        × (c.incoming ≡ (greeting g ++ reply rsv a hi lo) ++ d.incoming)
  dial_tcp_accepted parse_ip s c d dst_ip dst_port ran =
      let reads = dialled-Reads parse_ip s c dst_ip dst_port (done tt d) ran in
      let (x, (g, rsv, a, hi, lo, sized, whole), here) = reads.read tt d refl in
      (g, rsv, a, hi, lo, sized, rw (← whole) here)
