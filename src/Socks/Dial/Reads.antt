-- ===== src/Socks/Dial/Reads.antt =====
-- Which bytes the steps of the client read when they succeed, whatever the proxy can send.
use teapod_tun2socks.Socks.Client.Replies.{Greeting, no_password, password_accepted, greeting}
use teapod_tun2socks.Socks.Client.{Socks5Client, handshake, auth_user_pass, auth_request, methods}
use teapod_tun2socks.Packet.Fields.{byte}
use mathlib.Core.List.{append_assoc}
use teapod_tun2socks.Prelude.{
  ℕ, ◌≡◌, refl, sym, ap, ◌∙◌, List, [], ◌∷◌, ◌++◌, length, take, drop, take-append-drop,
  length-take, Bool, true, false, Option, none, some, ltb, if◌then◌else◌, arith, not, ◌==◌,
}
use teapod_tun2socks.Socks.Stream.{
  Conn, Out, done, failed, SocksError, read_full, write, set_deadline, ◌>>=◌, or_close,
}

-- A step that succeeds has read bytes `x` with `P a x` from the front of the stream.
pub record Reads {A : Type 0} (P : A → List ℕ → Type 0) (c : Conn) (m : Out A) : Type 0 where
  pub read :
      (a : A) (d : Conn) → m ≡ done a d → (x : List ℕ) × P a x × (c.incoming ≡ x ++ d.incoming)

pub done-Reads :
    {A : Type 0} (P : A → List ℕ → Type 0) (c e : Conn) (b : A)
    → c.incoming ≡ e.incoming
    → P b []
    → Reads P c (done b e)
done-Reads P c e b same h = record {
  read = λ a d k.
      let conn : e ≡ d = cc k in
      let value : b ≡ a = cc k in ([], rw (← value) h, same ∙ ap (λ z. z.incoming) conn);
}

pub failed-Reads :
    {A : Type 0} (P : A → List ℕ → Type 0) (c e : Conn) (err : SocksError)
    → Reads P c (failed err e)
failed-Reads P c e err = record { read = λ a d k. absurd (cc k) }

pub >>=-Reads :
    {A B : Type 0} (P : A → List ℕ → Type 0) (Q : B → List ℕ → Type 0) (c : Conn) (m : Out A)
    (f : A × Conn → Out B)
    → Reads P c m
    → ((a : A) (d : Conn) (x : List ℕ) → P a x → Reads (λ b y. Q b (x ++ y)) d (f (a, d)))
    → Reads Q c (m >>= f)
>>=-Reads P Q c (done a d) f h k = record {
  read = λ b e ran.
      let (x, front, here) = h.read a d refl in
      let (y, rest, there) = (k a d x front).read b e ran in
      (x ++ y, rest, here ∙ ap (◌++◌ x) there ∙ sym (append_assoc x y e.incoming));
}
>>=-Reads P Q c (failed err d) f h k = failed-Reads Q c d err

pub if-Reads :
    {A : Type 0} (P : A → List ℕ → Type 0) (c : Conn) (b : Bool) (m n : Out A)
    → (b ≡ true → Reads P c m)
    → (b ≡ false → Reads P c n)
    → Reads P c (if b then m else n)
if-Reads P c true m n h k = h refl
if-Reads P c false m n h k = k refl

-- The bytes that `io.ReadFull` returns are those that it reads.
abbrev pub IsWhole : ℕ → List ℕ → List ℕ → Type 0
IsWhole n a x = (a ≡ x) × (length x ≡ n)

pub read_full-Reads : (n : ℕ) (c : Conn) → Reads (IsWhole n) c (read_full n c)
unfolding read_full
read_full-Reads n c =
    if-Reads (IsWhole n) c (ltb (length c.incoming) n) _ _ (λ _. failed-Reads (IsWhole n) c _ _)
      (λ enough. record {
        read = λ a d k.
            let conn : record c { incoming = drop n c.incoming } ≡ d = cc k in
            let value : take n c.incoming ≡ a = cc k in
            (
              take n c.incoming,
              (sym value, ground (arith, length-take {0} n c.incoming)),
              sym (take-append-drop n c.incoming) ∙ ap (λ z. take n c.incoming ++ z.incoming) conn,
            );
      })

-- Nothing is read.
abbrev pub IsNothing : {A : Type 0} → A → List ℕ → Type 0
IsNothing a x = x ≡ []

write_with-Reads :
    (b : List ℕ) (c : Conn) (faults : List (Option ℕ))
    → Reads IsNothing
        (record c { write_faults = faults })
        (write b (record c { write_faults = faults }))
unfolding write
write_with-Reads b c [] = done-Reads IsNothing _ _ tt refl refl
write_with-Reads b c (none ∷ faults) = done-Reads IsNothing _ _ tt refl refl
write_with-Reads b c (some n ∷ faults) = failed-Reads IsNothing _ _ _

pub write-Reads : (b : List ℕ) (c : Conn) → Reads IsNothing c (write b c)
write-Reads b c = write_with-Reads b c c.write_faults

set_deadline_with-Reads :
    (on : Bool) (c : Conn) (faults : List Bool)
    → Reads IsNothing
        (record c { deadline_faults = faults })
        (set_deadline on (record c { deadline_faults = faults }))
unfolding set_deadline
set_deadline_with-Reads on c [] = done-Reads IsNothing _ _ tt refl refl
set_deadline_with-Reads on c (false ∷ faults) = done-Reads IsNothing _ _ tt refl refl
set_deadline_with-Reads on c (true ∷ faults) = failed-Reads IsNothing _ _ _

pub set_deadline-Reads : (on : Bool) (c : Conn) → Reads IsNothing c (set_deadline on c)
set_deadline-Reads on c = set_deadline_with-Reads on c c.deadline_faults

pub two_bytes : (a : List ℕ) → length a ≡ 2 → a ≡ byte a 0 ∷ byte a 1 ∷ []
two_bytes (x ∷ y ∷ []) h = refl
two_bytes [] h = absurd (omega arith)
two_bytes (x ∷ []) h = absurd (omega arith)
two_bytes (x ∷ y ∷ z ∷ a) h = absurd (omega arith)

pub four_bytes : (a : List ℕ) → length a ≡ 4 → a ≡ byte a 0 ∷ byte a 1 ∷ byte a 2 ∷ byte a 3 ∷ []
four_bytes (x ∷ y ∷ z ∷ w ∷ []) h = refl
four_bytes [] h = absurd (omega arith)
four_bytes (x ∷ []) h = absurd (omega arith)
four_bytes (x ∷ y ∷ []) h = absurd (omega arith)
four_bytes (x ∷ y ∷ z ∷ []) h = absurd (omega arith)
four_bytes (x ∷ y ∷ z ∷ w ∷ v ∷ a) h = absurd (omega arith)

pub Reads-weaken :
    {A : Type 0} (P Q : A → List ℕ → Type 0) (c : Conn) (m : Out A)
    → ((a : A) (x : List ℕ) → P a x → Q a x)
    → Reads P c m
    → Reads Q c m
Reads-weaken P Q c m f h = record {
  read = λ a d ran. let (x, front, here) = h.read a d ran in (x, f a x front, here);
}

pub or_close-Reads :
    {A : Type 0} (P : A → List ℕ → Type 0) (c : Conn) (m : Out A)
    → Reads P c m
    → Reads P c (or_close m)
or_close-Reads P c (done a d) h = h
or_close-Reads P c (failed err d) h = failed-Reads P c _ err

pub some-Reads :
    {A : Type 0} (P : A → List ℕ → Type 0) (c : Conn) (o m : Out A)
    → some o ≡ some m
    → Reads P c o
    → Reads P c m
some-Reads P c o m e h = let same : o ≡ m = cc e in rw (← same) h

two_read :
    (resp y : List ℕ) (p q : ℕ)
    → IsWhole 2 resp y
    → byte resp 0 ≡ p
    → byte resp 1 ≡ q
    → y ≡ p ∷ q ∷ []
two_read resp y p q whole first second =
    let form = two_bytes resp (rw (whole.0) whole.1) in
    sym (whole.0) ∙ form ∙ ap (λ z. z ∷ byte resp 1 ∷ []) first ∙ ap (λ z. p ∷ z ∷ []) second

IsStatus : {A : Type 0} → A → List ℕ → Type 0
IsStatus a x = x ≡ 1 ∷ 0 ∷ []

auth_user_pass-Reads : (s : Socks5Client) (c : Conn) → Reads IsStatus c (auth_user_pass s c)
unfolding auth_user_pass IsStatus
auth_user_pass-Reads s c =
    >>=-Reads IsNothing IsStatus c _ _ (write-Reads (auth_request s) c) (λ _ d x empty.
      >>=-Reads (IsWhole 2) _ d _ _ (read_full-Reads 2 d) (λ resp e y whole.
        if-Reads _ e (not (byte resp 0 == 1)) _ _ (λ _. failed-Reads _ e e _)
          (λ version.
            if-Reads _ e (not (byte resp 1 == 0)) _ _ (λ _. failed-Reads _ e e _)
              (λ status.
                let answer = two_read resp y 1 0 whole (ground arith) (ground arith) in
                done-Reads _ e e tt refl (rw (empty, answer) refl)))))

-- The answer to the method selection, and to the password if it is asked for.
abbrev pub IsGreeting : {A : Type 0} → A → List ℕ → Type 0
IsGreeting a x = (g : Greeting) × (x ≡ greeting g)

pub handshake-Reads : (s : Socks5Client) (c : Conn) → Reads IsGreeting c (handshake s c)
unfolding handshake IsStatus
handshake-Reads s c =
    >>=-Reads IsNothing IsGreeting c _ _ (write-Reads (methods s) c) (λ _ d x empty.
      >>=-Reads (IsWhole 2) _ d _ _ (read_full-Reads 2 d) (λ resp e y whole.
        if-Reads _ e (not (byte resp 0 == 5)) _ _ (λ _. failed-Reads _ e e _)
          (λ version.
            if-Reads _ e (byte resp 1 == 0) _ _
              (λ free.
                let answer = two_read resp y 5 0 whole (ground arith) (ground arith) in
                done-Reads _ e e tt refl (no_password, rw (empty, answer) refl))
              (λ _.
                if-Reads _ e (byte resp 1 == 2) _ _
                  (λ asks.
                    let answer = two_read resp y 5 2 whole (ground arith) (ground arith) in
                    Reads-weaken IsStatus _ e _
                      (λ _ z status. (password_accepted, rw (empty, answer, status) refl))
                      (auth_user_pass-Reads s e))
                  (λ _.
                    if-Reads _ e (byte resp 1 == 255) _ _ (λ _. failed-Reads _ e e _)
                      (λ _. failed-Reads _ e e _))))))
