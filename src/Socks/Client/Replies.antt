-- ===== src/Socks/Client/Replies.antt =====
-- `handshake`, `sendConnect` and `readSocksAddress` against a proxy that answers well.
use teapod_tun2socks.Prelude.{
  Bool, ℕ, ◌<◌, ℤ, ◌≡◌, refl, List, [], ◌∷◌, ◌++◌, length, Option, some, ltb, false, be16, arith,
  length-append, ap,
}
use teapod_tun2socks.Packet.Fields.{take-append, drop-append}
use teapod_tun2socks.Socks.Stream.{Conn, done, read_full, write}
use teapod_tun2socks.Socks.Client.{
  read_host, read_socks_address, connect_request, send_connect, handshake, Socks5Client, methods,
  auth_user_pass, auth_request,
}

pub read_full-append :
    (c : Conn) (x rest : List ℕ) (n : ℕ)
    → n ≡ length x
    → read_full n (record c { incoming = x ++ rest }) ≡ done x (record c { incoming = rest })
unfolding read_full
read_full-append c x rest n h =
    let enough : ltb (length (x ++ rest)) (length x) ≡ false =
      ground (arith, length-append {0} x rest) in
    rw (h, enough, take-append x rest, drop-append x rest (length x) refl) refl

-- An open connection on which no write and no deadline fails: the bytes to come, those that were
-- written, and whether a deadline is set.
abbrev pub healthy : List ℕ → List ℕ → Bool → Conn
healthy incoming outgoing deadline = record {
  incoming = incoming;
  outgoing = outgoing;
  write_faults = [];
  deadline_faults = [];
  deadline = deadline;
  closed = false;
}

-- The address in a reply (RFC 1928).
pub data BindAddress : Type 0 where
  ipv4_address ipv6_address domain_name : List ℕ → BindAddress

abbrev pub bind_type : BindAddress → ℕ
bind_type (ipv4_address a) = 1
bind_type (ipv6_address a) = 4
bind_type (domain_name d) = 3

abbrev pub bind_bytes : BindAddress → List ℕ
bind_bytes (ipv4_address a) = a
bind_bytes (ipv6_address a) = a
bind_bytes (domain_name d) = length d ∷ d

abbrev pub IsBind : BindAddress → Type 0
IsBind (ipv4_address a) = length a ≡ 4
IsBind (ipv6_address a) = length a ≡ 16
IsBind (domain_name d) = length d < 256

-- A reply of success, with its reserved byte and the bytes of the port.
abbrev pub reply : ℕ → BindAddress → ℕ → ℕ → List ℕ
reply rsv a hi lo = 5 ∷ 0 ∷ rsv ∷ bind_type a ∷ (bind_bytes a ++ (hi ∷ lo ∷ []))

module _ (ip_text : List ℕ → List ℕ) (decimal : ℕ → List ℕ) where
  abbrev pub host_text : BindAddress → List ℕ
  host_text (ipv4_address a) = ip_text a
  host_text (ipv6_address a) = ip_text a
  host_text (domain_name d) = d

  read_host_lem :
      (c : Conn) (a : BindAddress) (rest : List ℕ)
      → IsBind a
      → read_host ip_text decimal (bind_type a) (record c { incoming = bind_bytes a ++ rest })
        ≡ done (host_text a) (record c { incoming = rest })
  unfolding read_host
  read_host_lem c (ipv4_address a) rest h = rw (read_full-append c a rest 4 (omega arith)) refl
  read_host_lem c (ipv6_address a) rest h = rw (read_full-append c a rest 16 (omega arith)) refl
  read_host_lem c (domain_name d) rest h =
      rw
        (
          read_full-append c (length d ∷ []) (d ++ rest) 1 refl,
          read_full-append c d rest (length d) refl,
        )
        refl

  append_two : (a rest : List ℕ) (x y : ℕ) → (a ++ (x ∷ y ∷ [])) ++ rest ≡ a ++ (x ∷ y ∷ rest)
  append_two [] rest x y = refl
  append_two (z ∷ a) rest x y = ap (◌∷◌ z) (append_two a rest x y)

  -- A reply of success is read to its last byte and no further, and its address is returned,
  -- whichever of the three types it has.
  pub read_socks_address_lem :
      (c : Conn) (rsv : ℕ) (a : BindAddress) (hi lo : ℕ) (rest : List ℕ)
      → IsBind a
      → read_socks_address ip_text decimal (record c { incoming = reply rsv a hi lo ++ rest })
        ≡ done (host_text a ++ (58 ∷ decimal (be16 hi lo))) (record c { incoming = rest })
  unfolding read_socks_address
  read_socks_address_lem c rsv a hi lo rest h =
      rw
        (
          append_two (bind_bytes a) rest hi lo,
          read_full-append c (5 ∷ 0 ∷ rsv ∷ bind_type a ∷ []) (bind_bytes a ++ (hi ∷ lo ∷ rest)) 4
              refl,
          read_host_lem c a (hi ∷ lo ∷ rest) h,
          read_full-append c (hi ∷ lo ∷ []) rest 2 refl,
        )
        refl

  pub send_connect_lem :
      (parse_ip : List ℕ → Option (List ℕ)) (sent : List ℕ) (limited : Bool) (dst_ip ip : List ℕ)
      (dst_port : ℤ) (rsv : ℕ) (a : BindAddress) (hi lo : ℕ) (rest : List ℕ)
      → parse_ip dst_ip ≡ some ip
      → IsBind a
      → send_connect ip_text decimal parse_ip
          (healthy (reply rsv a hi lo ++ rest) sent limited)
          dst_ip
          dst_port
        ≡ done tt (healthy rest (sent ++ connect_request ip dst_port) limited)
  unfolding send_connect write
  send_connect_lem parse_ip sent limited dst_ip ip dst_port rsv a hi lo rest parsed h =
      rw
        (
          parsed,
          send_connect,
          read_socks_address_lem (healthy [] (sent ++ connect_request ip dst_port) limited) rsv a hi
              lo rest h,
        )
        refl

-- What the proxy answers to the method selection: no authentication, or the password is right.
pub data Greeting : Type 0 where
  no_password password_accepted : Greeting

abbrev pub greeting : Greeting → List ℕ
greeting no_password = 5 ∷ 0 ∷ []
greeting password_accepted = 5 ∷ 2 ∷ 1 ∷ 0 ∷ []

-- What the client writes in return.
abbrev pub offered : Socks5Client → Greeting → List ℕ → List ℕ
offered s no_password sent = sent ++ methods s
offered s password_accepted sent = (sent ++ methods s) ++ auth_request s

pub handshake_lem :
    (s : Socks5Client) (g : Greeting) (rest sent : List ℕ) (limited : Bool)
    → handshake s (healthy (greeting g ++ rest) sent limited)
      ≡ done tt (healthy rest (offered s g sent) limited)
unfolding handshake auth_user_pass write
handshake_lem s no_password rest sent limited =
    rw
      (read_full-append (healthy [] (sent ++ methods s) limited) (greeting no_password) rest 2 refl)
      refl
handshake_lem s password_accepted rest sent limited =
    rw
      (
        read_full-append (healthy [] (sent ++ methods s) limited) (5 ∷ 2 ∷ []) (1 ∷ 0 ∷ rest) 2
            refl,
        read_full-append (healthy [] ((sent ++ methods s) ++ auth_request s) limited) (1 ∷ 0 ∷ [])
            rest 2 refl,
      )
      refl
