-- ===== src/Socks/Client.antt =====
-- go/socks5.go: the method selection, the authentication, the CONNECT request and the reply. The
-- parameters are `net.IP.String`, `net.ParseIP` and the text that `%d` prints.
-- The buffers that `io.ReadFull` fills have the length that is read, so an index into them is in
-- range.
pub mod Replies
pub mod Authentication
use teapod_tun2socks.Prelude.{
  ℕ, ◌/◌, ℤ, List, [], ◌∷◌, ◌++◌, length, not, ◌==◌, if◌then◌else◌, Option, some, none, be16, to_u8,
  int_to_u16,
}
use teapod_tun2socks.Packet.Fields.{byte}
use teapod_tun2socks.Socks.Address.{destination}
use teapod_tun2socks.Socks.Stream.{
  Conn, Out, done, failed, read_full, write, ◌>>=◌, methods_rejected, bad_version, bad_method,
  bad_auth_version, auth_failed, bad_reply_version, reply_error, bad_address_type, invalid_ip,
}

-- `SOCKS5Client`
pub record Socks5Client : Type 0 where
  pub host : List ℕ
  pub port : ℤ
  pub username : List ℕ
  pub password : List ℕ

-- `NewSOCKS5Client`
abbrev pub new_socks5_client : List ℕ → ℤ → List ℕ → List ℕ → Socks5Client
new_socks5_client host port username password = record {
  host = host;
  port = port;
  username = username;
  password = password;
}

-- The message that `authUserPass` writes.
abbrev pub auth_request : Socks5Client → List ℕ
auth_request s =
    1 ∷ to_u8 (length s.username) ∷ (s.username ++ (to_u8 (length s.password) ∷ s.password))

-- `authUserPass`
unfoldable pub auth_user_pass : Socks5Client → Conn → Out (Unit {0})
auth_user_pass s c = do
  (_, c) ← write (auth_request s) c
  (resp, c) ← read_full 2 c
  if not (byte resp 0 == 1)
      then failed (bad_auth_version (byte resp 0)) c
      else if not (byte resp 1 == 0)
      then failed (auth_failed (byte resp 1)) c
      else done tt c

-- The methods that `handshake` offers.
abbrev pub methods : Socks5Client → List ℕ
methods s = elim s.username [ [] ↦ 5 ∷ 1 ∷ 0 ∷ [] | _ ∷ _ ↦ 5 ∷ 2 ∷ 0 ∷ 2 ∷ [] ]

-- `handshake`
unfoldable pub handshake : Socks5Client → Conn → Out (Unit {0})
unfolding auth_user_pass
handshake s c = do
  (_, c) ← write (methods s) c
  (resp, c) ← read_full 2 c
  if not (byte resp 0 == 5)
      then failed (bad_version (byte resp 0)) c
      else if byte resp 1 == 0
      then done tt c
      else if byte resp 1 == 2
      then auth_user_pass s c
      else if byte resp 1 == 255
      then failed methods_rejected c
      else failed (bad_method (byte resp 1)) c

-- The request that `sendConnect` writes.
abbrev pub connect_request : List ℕ → ℤ → List ℕ
connect_request ip dst_port =
    let (atyp, addr) = destination ip in
    5
    ∷ 1
    ∷ 0
    ∷ atyp
    ∷ (addr ++ (to_u8 (int_to_u16 dst_port / 256) ∷ to_u8 (int_to_u16 dst_port) ∷ []))

module _ (ip_text : List ℕ → List ℕ) (decimal : ℕ → List ℕ) where
  -- The address in `readSocksAddress`, for the address type `atyp`.
  unfoldable pub read_host : ℕ → Conn → Out (List ℕ)
  read_host atyp c =
      if atyp == 1
      then (do (addr, c) ← read_full 4 c; done (ip_text addr) c)
      else if atyp == 4
      then (do (addr, c) ← read_full 16 c; done (ip_text addr) c)
      else if atyp == 3
      then (do (len_buf, c) ← read_full 1 c; read_full (byte len_buf 0) c)
      else failed (bad_address_type atyp) c

  -- `readSocksAddress`
  unfoldable pub read_socks_address : Conn → Out (List ℕ)
  unfolding read_host
  read_socks_address c = do
    (hdr, c) ← read_full 4 c
    if not (byte hdr 0 == 5)
        then failed (bad_reply_version (byte hdr 0)) c
        else if not (byte hdr 1 == 0)
        then failed (reply_error (byte hdr 1)) c
        else (do
          (host, c) ← read_host (byte hdr 3) c
          (port_buf, c) ← read_full 2 c
          done (host ++ (58 ∷ decimal (be16 (byte port_buf 0) (byte port_buf 1)))) c)

  -- `sendConnect`
  unfoldable pub send_connect : (List ℕ → Option (List ℕ)) → Conn → List ℕ → ℤ → Out (Unit {0})
  unfolding read_socks_address
  send_connect parse_ip c dst_ip dst_port = elim (parse_ip dst_ip) [
    | none ↦ failed invalid_ip c
    | some ip ↦ do
      (_, c) ← write (connect_request ip dst_port) c
      (_, c) ← read_socks_address c
      done tt c
  ]
