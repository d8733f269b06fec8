-- ===== src/Socks/Dial/Keeps.antt =====
-- The steps of the client neither open nor close the connection.
use teapod_tun2socks.Packet.Fields.{byte}
use teapod_tun2socks.Prelude.{
  ℕ, ◌≡◌, refl, ◌∙◌, List, [], ◌∷◌, Bool, true, false, Option, none, some, ltb, length,
  if◌then◌else◌, ℤ, Option-cases, inl, inr, ◌==◌, not,
}
use teapod_tun2socks.Socks.Stream.{
  Conn, Out, done, failed, read_full, write, set_deadline, ◌>>=◌, SocksError,
}
use teapod_tun2socks.Socks.Client.{
  Socks5Client, handshake, auth_user_pass, auth_request, methods, read_host, read_socks_address,
  send_connect, connect_request,
}

abbrev pub conn_of : {A : Type 0} → Out A → Conn
conn_of (done a c) = c
conn_of (failed e c) = c

-- A step that leaves the connection as open or as closed as it was.
pub record Keeps {A : Type 0} (c : Conn) (m : Out A) : Type 0 where
  pub same : (conn_of m).closed ≡ c.closed

pub >>=-Keeps :
    {A B : Type 0} (c : Conn) (m : Out A) (f : A × Conn → Out B)
    → Keeps c m
    → ((a : A) (d : Conn) → d.closed ≡ c.closed → Keeps c (f (a, d)))
    → Keeps c (m >>= f)
>>=-Keeps c (done a d) f h k = k a d h.same
>>=-Keeps c (failed e d) f h k = record { same = h.same }

if-Keeps :
    {A : Type 0} (c : Conn) (b : Bool) (x y : Out A)
    → Keeps c x
    → Keeps c y
    → Keeps c (if b then x else y)
if-Keeps c true x y h k = h
if-Keeps c false x y h k = k

pub Keeps-trans :
    {A : Type 0} (c d : Conn) (m : Out A) → d.closed ≡ c.closed → Keeps d m → Keeps c m
Keeps-trans c d m h k = record { same = k.same ∙ h }

done-Keeps : {A : Type 0} (c d : Conn) (a : A) → d.closed ≡ c.closed → Keeps c (done a d)
done-Keeps c d a h = record { same = h }

failed-Keeps :
    {A : Type 0} (c d : Conn) (e : SocksError) → d.closed ≡ c.closed → Keeps {A = A} c (failed e d)
failed-Keeps c d e h = record { same = h }

read_full-Keeps : (n : ℕ) (c : Conn) → Keeps c (read_full n c)
unfolding read_full
read_full-Keeps n c =
    if-Keeps c (ltb (length c.incoming) n) _ _ (record { same = refl }) (record { same = refl })

write_with-Keeps :
    (b : List ℕ) (c : Conn) (faults : List (Option ℕ))
    → Keeps c (write b (record c { write_faults = faults }))
unfolding write
write_with-Keeps b c [] = record { same = refl }
write_with-Keeps b c (none ∷ faults) = record { same = refl }
write_with-Keeps b c (some n ∷ faults) = record { same = refl }

pub write-Keeps : (b : List ℕ) (c : Conn) → Keeps c (write b c)
write-Keeps b c = write_with-Keeps b c c.write_faults

set_deadline_with-Keeps :
    (on : Bool) (c : Conn) (faults : List Bool)
    → Keeps c (set_deadline on (record c { deadline_faults = faults }))
unfolding set_deadline
set_deadline_with-Keeps on c [] = record { same = refl }
set_deadline_with-Keeps on c (false ∷ faults) = record { same = refl }
set_deadline_with-Keeps on c (true ∷ faults) = record { same = refl }

pub set_deadline-Keeps : (on : Bool) (c : Conn) → Keeps c (set_deadline on c)
set_deadline-Keeps on c = set_deadline_with-Keeps on c c.deadline_faults

-- The next step after one that kept the connection.
after-Keeps :
    {A B : Type 0} (c d : Conn) (m : Out A) (f : A × Conn → Out B)
    → d.closed ≡ c.closed
    → Keeps d m
    → ((a : A) (e : Conn) → e.closed ≡ c.closed → Keeps c (f (a, e)))
    → Keeps c (m >>= f)
after-Keeps c d m f h k = >>=-Keeps c m f (Keeps-trans c d m h k)

auth_user_pass-Keeps : (s : Socks5Client) (c : Conn) → Keeps c (auth_user_pass s c)
unfolding auth_user_pass
auth_user_pass-Keeps s c = >>=-Keeps c _ _ (write-Keeps (auth_request s) c) (λ _ d h.
    after-Keeps c d _ _ h (read_full-Keeps 2 d) (λ resp e k.
      if-Keeps c (not (byte resp 0 == 1)) _ _ (failed-Keeps c e _ k)
        (if-Keeps c (not (byte resp 1 == 0)) _ _ (failed-Keeps c e _ k) (done-Keeps c e _ k))))

pub handshake-Keeps : (s : Socks5Client) (c : Conn) → Keeps c (handshake s c)
unfolding handshake
handshake-Keeps s c = >>=-Keeps c _ _ (write-Keeps (methods s) c) (λ _ d h.
    after-Keeps c d _ _ h (read_full-Keeps 2 d) (λ resp e k.
      if-Keeps c (not (byte resp 0 == 5)) _ _ (failed-Keeps c e _ k) (
        if-Keeps c (byte resp 1 == 0) _ _ (done-Keeps c e _ k) (
          if-Keeps c (byte resp 1 == 2) _ _ (Keeps-trans c e _ k (auth_user_pass-Keeps s e))
            (if-Keeps c (byte resp 1 == 255) _ _ (failed-Keeps c e _ k) (failed-Keeps c e _ k))))))

module _ (ip_text : List ℕ → List ℕ) (decimal : ℕ → List ℕ) where
  read_host-Keeps : (atyp : ℕ) (c : Conn) → Keeps c (read_host ip_text decimal atyp c)
  unfolding read_host
  read_host-Keeps atyp c =
      let short : (n : ℕ) → Keeps c (read_full n c >>= λ x. done (ip_text x.0) x.1) =
        λ n. >>=-Keeps c _ _ (read_full-Keeps n c) (λ addr d h. done-Keeps c d _ h) in
      if-Keeps c (atyp == 1) _ _ (short 4) (
        if-Keeps c (atyp == 4) _ _ (short 16) (
          if-Keeps c (atyp == 3) _ _
            (>>=-Keeps c _ _ (read_full-Keeps 1 c)
              (λ len_buf d h. Keeps-trans c d _ h (read_full-Keeps (byte len_buf 0) d)))
            (failed-Keeps c c _ refl)))

  pub read_socks_address-Keeps : (c : Conn) → Keeps c (read_socks_address ip_text decimal c)
  unfolding read_socks_address
  read_socks_address-Keeps c = >>=-Keeps c _ _ (read_full-Keeps 4 c) (λ hdr d h.
      if-Keeps c (not (byte hdr 0 == 5)) _ _ (failed-Keeps c d _ h) (
        if-Keeps c (not (byte hdr 1 == 0)) _ _ (failed-Keeps c d _ h) (
          after-Keeps c d _ _ h (read_host-Keeps (byte hdr 3) d) (λ host e k.
            after-Keeps c e _ _ k (read_full-Keeps 2 e) (λ port x l. done-Keeps c x _ l)))))

  pub send_connect-Keeps :
      (parse_ip : List ℕ → Option (List ℕ)) (c : Conn) (dst_ip : List ℕ) (dst_port : ℤ)
      → Keeps c (send_connect ip_text decimal parse_ip c dst_ip dst_port)
  unfolding send_connect
  send_connect-Keeps parse_ip c dst_ip dst_port = elim (Option-cases (parse_ip dst_ip)) [
    | inl bad ↦ rw (bad, send_connect) (failed-Keeps c c _ refl)
    | inr (ip, good) ↦
        rw (good, send_connect)
          (>>=-Keeps c _ _ (write-Keeps (connect_request ip dst_port) c) (λ _ d h.
            after-Keeps c d _ _ h (read_socks_address-Keeps d) (λ host e k. done-Keeps c e _ k)))
  ]
