-- ===== src/Socks/Client/Authentication.antt =====
-- What the proxy reads from the message of `authUserPass` (RFC 1929): a length and as many bytes,
-- twice.
use mathlib.Core.List.{append-nil}
use teapod_tun2socks.Prelude.{
  ap, ◌∙◌, Option-cases, inl, inr, length-take, ℕ, ◌%◌, ◌<◌, ◌≡◌, refl, List, [], ◌∷◌, ◌++◌, length,
  take, drop, Option, some, none, leb, if◌then◌else◌, arith, length-append, to_u8, true,
}
use teapod_tun2socks.Packet.Fields.{take-append, drop-append}
use teapod_tun2socks.Socks.Client.{Socks5Client, auth_request}

-- A field of the message, and what is behind it.
unfoldable pub parse_field : List ℕ → Option (List ℕ × List ℕ)
parse_field [] = none
parse_field (n ∷ b) = if leb n (length b) then some (take n b, drop n b) else none

abbrev and_then : {A B : Type 0} → Option A → (A → Option B) → Option B
and_then none f = none
and_then (some a) f = f a

abbrev parse_password : List ℕ × List ℕ → Option (List ℕ × List ℕ)
parse_password (user, b) = and_then (parse_field b) (λ x. some (user, x.0))

-- The user name and the password that the proxy reads.
abbrev pub parse_auth : List ℕ → Option (List ℕ × List ℕ)
parse_auth [] = none
parse_auth (version ∷ b) = and_then (parse_field b) parse_password

parse_field-append :
    (x rest : List ℕ)
    → length x < 256
    → parse_field (to_u8 (length x) ∷ (x ++ rest)) ≡ some (x, rest)
unfolding parse_field
parse_field-append x rest h =
    let e : to_u8 (length x) ≡ length x = omega arith in
    let enough : leb (length x) (length (x ++ rest)) ≡ true =
      ground (arith, length-append {0} x rest) in
    rw (e, enough, take-append x rest, drop-append x rest (length x) refl) refl

-- If neither is longer than 255 bytes, the proxy reads the user name and the password of the client.
pub parse_auth-auth_request :
    (s : Socks5Client)
    → length s.username < 256
    → length s.password < 256
    → parse_auth (auth_request s) ≡ some (s.username, s.password)
parse_auth-auth_request s hu hp =
    let tail : parse_field (to_u8 (length s.password) ∷ s.password) ≡ some (s.password, []) =
      simp append-nil at (parse_field-append s.password [] hp) in
    rw (parse_field-append s.username (to_u8 (length s.password) ∷ s.password) hu, tail) refl

parse_field-length :
    (n : ℕ) (b : List ℕ) (x : List ℕ × List ℕ) → parse_field (n ∷ b) ≡ some x → length x.0 ≡ n
unfolding parse_field
parse_field-length n b x h = ground (arith, length-take {0} n b)

parse_password-user :
    (x : List ℕ × List ℕ) (user pass : List ℕ) → parse_password x ≡ some (user, pass) → user ≡ x.0
parse_password-user (u, b) user pass h = ground arith

-- Whatever the proxy reads as the user name has as many bytes as the user name of the client modulo
-- 256, so a user name of more than 255 bytes is never the one that is read.
pub parse_auth_truncates :
    (s : Socks5Client) (user pass : List ℕ)
    → parse_auth (auth_request s) ≡ some (user, pass)
    → length user ≡ length s.username % 256
parse_auth_truncates s user pass h =
    let b = s.username ++ (to_u8 (length s.password) ∷ s.password) in
    let n = to_u8 (length s.username) in
    elim (Option-cases (parse_field (n ∷ b))) [
      | inl bad ↦ absurd (cc (h, bad))
      | inr (x, e) ↦
          let rest : parse_password x ≡ some (user, pass) = rw e at h in
          ap length (parse_password-user x user pass rest) ∙ parse_field-length n b x e
    ]
