-- ===== src/Socks/Stream.antt =====
-- A `net.Conn` to the proxy as go/socks5.go uses it. The proxy may answer what it likes: the bytes
-- that it sends over the life of the connection are a list, which the client consumes.
use teapod_tun2socks.Prelude.{
  ℕ, List, [], ◌∷◌, ◌++◌, length, take, drop, ltb, Bool, true, false, Option, some, none,
  if◌then◌else◌,
}

-- `incoming`: what the proxy sends and the client has not read; the stream fails at its end.
-- `outgoing`: what the client has written.
-- `write_faults`: for each write to come, `some n` if it fails after `n` bytes.
-- `deadline_faults`: for each call of `SetDeadline` to come, whether it fails.
pub record Conn : Type 0 where
  pub incoming : List ℕ
  pub outgoing : List ℕ
  pub write_faults : List (Option ℕ)
  pub deadline_faults : List Bool
  pub deadline : Bool
  pub closed : Bool

-- The errors of the client, one for each `fmt.Errorf`.
pub data SocksError : Type 0 where
  write_failed read_failed deadline_failed methods_rejected invalid_ip : SocksError
  listen_failed resolve_failed : SocksError
  bad_version bad_method bad_auth_version auth_failed : ℕ → SocksError
  bad_reply_version reply_error bad_address_type : ℕ → SocksError

-- The outcome of a step, with the connection as it leaves it.
pub data Out {ℓ} (A : Type ℓ) : Type ℓ where
  done : A → Conn → Out A
  failed : SocksError → Conn → Out A

infixl 5 ◌>>=◌
abbrev pub ◌>>=◌ {ℓ κ} : {A : Type ℓ} {B : Type κ} → Out A → (A × Conn → Out B) → Out B
done a c >>= f = f (a, c)
failed e c >>= f = failed e c

-- `io.ReadFull(conn, make([]byte, n))`; a failed read has consumed what there was.
unfoldable pub read_full : ℕ → Conn → Out (List ℕ)
read_full n c =
    if ltb (length c.incoming) n
    then failed read_failed (record c { incoming = [] })
    else done (take n c.incoming) (record c { incoming = drop n c.incoming })

-- `conn.Write(b)`
unfoldable pub write : List ℕ → Conn → Out (Unit {0})
write b c = elim c.write_faults [
  | [] ↦ done tt (record c { outgoing = c.outgoing ++ b })
  | none ∷ faults ↦ done tt (record c { outgoing = c.outgoing ++ b; write_faults = faults })
  | some n ∷ faults ↦
      failed write_failed (record c { outgoing = c.outgoing ++ take n b; write_faults = faults })
]

-- `conn.SetDeadline(t)`; `false` is the zero time, which clears the deadline.
unfoldable pub set_deadline : Bool → Conn → Out (Unit {0})
set_deadline on c = elim c.deadline_faults [
  | [] ↦ done tt (record c { deadline = on })
  | false ∷ faults ↦ done tt (record c { deadline = on; deadline_faults = faults })
  | true ∷ faults ↦ failed deadline_failed (record c { deadline_faults = faults })
]

-- `conn.Close()`
abbrev pub close : Conn → Conn
close c = record c { closed = true }

-- `if err != nil { conn.Close(); return nil, err }`
abbrev pub or_close {ℓ} : {A : Type ℓ} → Out A → Out A
or_close (done a c) = done a c
or_close (failed e c) = failed e (close c)
