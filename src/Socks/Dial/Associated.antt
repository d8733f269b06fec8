-- ===== src/Socks/Dial/Associated.antt =====
-- What the proxy has sent when `UDPAssociate` succeeds, whatever it can send.
use mathlib.Core.List.{append-nil, append_assoc}
use teapod_tun2socks.Prelude.{
  ℕ, ◌≡◌, refl, sym, ap, ◌∙◌, List, [], ◌∷◌, ◌++◌, true, false, Option, none, some, be16,
}
use teapod_tun2socks.Socks.Stream.{Conn, Out, done, failed, resolve_failed, set_deadline, ◌>>=◌}
use teapod_tun2socks.Socks.Client.{Socks5Client, handshake}
use teapod_tun2socks.Socks.Client.Replies.{BindAddress, Greeting, greeting, reply}
use teapod_tun2socks.Socks.Dial.{
  Socket, bound, associated, associate_request, request_relay, after_request, after_handshake,
  udp_associate,
}
use teapod_tun2socks.Socks.Dial.Reads.{
  Reads, done-Reads, failed-Reads, >>=-Reads, IsNothing, write-Reads, set_deadline-Reads,
  Reads-weaken, IsGreeting, handshake-Reads,
}
use teapod_tun2socks.Socks.Dial.Accepted.{IsSized, host_text, IsNamed, read_socks_address-Reads}

module _ (ip_text : List ℕ → List ℕ) (decimal : ℕ → List ℕ) {R : Type 0}
    (resolve : List ℕ → Option R) where
  -- A reply of success whose address is that of the relay.
  abbrev IsRelay : R → List ℕ → Type 0
  IsRelay relay x =
      (rsv : ℕ) × (b : BindAddress) × (hi : ℕ) × (lo : ℕ) × IsSized b
      × (x ≡ reply rsv b hi lo)
      × (resolve (host_text ip_text decimal b ++ (58 ∷ decimal (be16 hi lo))) ≡ some relay)

  -- The address that the reply names is resolved.
  resolved-Reads :
      (address : List ℕ) (found : Option R) (e : Conn) (x y : List ℕ)
      → x ≡ []
      → IsNamed ip_text decimal address y
      → resolve address ≡ found
      → Reads
          (λ relay z. IsRelay relay (x ++ (y ++ z)))
          e
          (elim found [
            | none ↦ failed resolve_failed e
            | some addr ↦ (set_deadline false e >>= λ d. done addr d.1)
          ])
  resolved-Reads address none e x y empty named found = failed-Reads _ e e _
  resolved-Reads address (some addr) e x y empty named found =
      >>=-Reads IsNothing _ e _ _ (set_deadline-Reads false e) (λ _ f z silent.
        done-Reads _ f f addr refl (
          named.0,
          named.1,
          named.2,
          named.3,
          named.4,
          rw (silent, empty, append-nil y) (named.5),
          ap resolve (sym named.6) ∙ found,
        ))

  request_relay-Reads :
      (bound_port : ℕ) (c : Conn)
      → Reads IsRelay c (request_relay ip_text decimal resolve bound_port c)
  unfolding request_relay
  request_relay-Reads bound_port c =
      >>=-Reads IsNothing IsRelay c _ _
        (write-Reads (associate_request ip_text decimal bound_port) c)
        (λ _ d x empty.
          >>=-Reads (IsNamed ip_text decimal) _ d _ _ (read_socks_address-Reads ip_text decimal d)
            (λ address e y named. resolved-Reads address (resolve address) e x y empty named refl))

  after_request-associated :
      (m : Out R) (relay : R) (d : Conn) (socket : Socket)
      → after_request ip_text decimal resolve m ≡ associated relay d socket
      → (m ≡ done relay d) × (socket ≡ bound)
  unfolding after_request
  after_request-associated (failed err c) relay d socket h = absurd (cc h)
  after_request-associated (done addr c) relay d socket h = (cc h, cc h)

  after_handshake-associated :
      (listen : Option ℕ) (m : Out (Unit {0})) (relay : R) (d : Conn) (socket : Socket)
      → after_handshake ip_text decimal resolve listen m ≡ associated relay d socket
      → (bound_port : ℕ) × (e : Conn) × (listen ≡ some bound_port)
        × (m ≡ done tt e)
        × (request_relay ip_text decimal resolve bound_port e ≡ done relay d)
        × (socket ≡ bound)
  unfolding after_handshake
  after_handshake-associated listen (failed err c) relay d socket h = absurd (cc h)
  after_handshake-associated none (done _ c) relay d socket h = absurd (cc h)
  after_handshake-associated (some bound_port) (done _ c) relay d socket h =
      let (ran, same) =
        after_request-associated (request_relay ip_text decimal resolve bound_port c) relay d socket
          h in
      (bound_port, c, refl, refl, ran, same)

  opened-Reads :
      (s : Socks5Client) (c : Conn)
      → Reads IsGreeting c (set_deadline true c >>= λ d. handshake s d.1)
  opened-Reads s c =
      >>=-Reads IsNothing IsGreeting c _ _ (set_deadline-Reads true c) (λ _ e x empty.
        Reads-weaken IsGreeting _ e _ (λ _ y accepted. rw (empty) accepted) (handshake-Reads s e))

  -- If `UDPAssociate` succeeds on any stream of bytes and any connection: the socket is bound, the
  -- stream begins with an acceptance of the client (without a password, or with the right one) and
  -- a reply of success to the request, with an address of one of the three types; the relay is what
  -- the text of that address and its port resolves to; and what follows is left unread.
  pub udp_associate_accepted :
      (s : Socks5Client) (c d : Conn) (listen : Option ℕ) (relay : R) (socket : Socket)
      → udp_associate ip_text decimal resolve s (some c) listen ≡ some (associated relay d socket)
      → (bound_port : ℕ) × (g : Greeting) × (rsv : ℕ) × (a : BindAddress) × (hi : ℕ) × (lo : ℕ)
        × (listen ≡ some bound_port)
        × (socket ≡ bound)
        × IsSized a
        × (c.incoming ≡ (greeting g ++ reply rsv a hi lo) ++ d.incoming)
        × (resolve (host_text ip_text decimal a ++ (58 ∷ decimal (be16 hi lo))) ≡ some relay)
  unfolding udp_associate
  udp_associate_accepted s c d listen relay socket h =
      let (bound_port, e, listens, opened, ran, same) =
        after_handshake-associated listen (set_deadline true c >>= λ f. handshake s f.1) relay d
          socket (cc h) in
      let (x, (g, accepted), before) = (opened-Reads s c).read tt e opened in
      let (y, (rsv, a, hi, lo, sized, whole, found), after) =
        (request_relay-Reads bound_port e).read relay d ran in
      let split = append_assoc x y d.incoming in
      let parts : x ++ y ≡ greeting g ++ reply rsv a hi lo =
        ap (λ u. u ++ y) accepted ∙ ap (◌++◌ (greeting g)) whole in
      (
        bound_port,
        g,
        rsv,
        a,
        hi,
        lo,
        listens,
        same,
        sized,
        before ∙ ap (◌++◌ x) after ∙ sym split ∙ ap (λ z. z ++ d.incoming) parts,
        found,
      )
