-- ===== src/Socks/Dial/Cleanup.antt =====
-- What `DialTCP` and `UDPAssociate` leave of the connection and the socket.
use teapod_tun2socks.Socks.Dial.{
  dial_tcp, udp_associate, request_relay, after_request, after_handshake, associate_request,
  Association, associated, gave_up, bound,
}
use teapod_tun2socks.Socks.Stream.{resolve_failed}
use teapod_tun2socks.Prelude.{
  ◌≢◌, ℕ, ◌≡◌, refl, ◌∙◌, List, [], ◌∷◌, Bool, true, false, Option, none, some, ℤ,
}
use teapod_tun2socks.Socks.Stream.{Conn, Out, done, failed, set_deadline, ◌>>=◌, or_close}
use teapod_tun2socks.Socks.Client.{Socks5Client}
use teapod_tun2socks.Socks.Dial.Keeps.{
  Keeps, >>=-Keeps, Keeps-trans, write-Keeps, set_deadline-Keeps, handshake-Keeps,
  read_socks_address-Keeps, send_connect-Keeps,
}

-- The outcome of `DialTCP` once the proxy is dialled: a connection that is open and has no
-- deadline, or an error and a connection that is closed.
abbrev pub IsClean : {A : Type 0} → Out A → Type 0
IsClean (done _ c) = (c.closed ≡ false) × (c.deadline ≡ false)
IsClean (failed e c) = c.closed ≡ true

-- The end of `DialTCP` on any outcome.
record Ends {A : Type 0} (m : Out A) : Type 0 where
  clean : IsClean (or_close m)

>>=-Ends :
    {A B : Type 0} (c : Conn) (m : Out A) (f : A × Conn → Out B)
    → c.closed ≡ false
    → Keeps c m
    → ((a : A) (d : Conn) → d.closed ≡ false → Ends (f (a, d)))
    → Ends (m >>= f)
>>=-Ends c (done a d) f o h k = k a d (h.same ∙ o)
>>=-Ends c (failed e d) f o h k = record { clean = refl }

set_deadline_with-Ends :
    (c : Conn) (faults : List Bool)
    → c.closed ≡ false
    → Ends (set_deadline false (record c { deadline_faults = faults }))
unfolding set_deadline
set_deadline_with-Ends c [] h = record { clean = (h, refl) }
set_deadline_with-Ends c (false ∷ faults) h = record { clean = (h, refl) }
set_deadline_with-Ends c (true ∷ faults) h = record { clean = refl }

-- If the proxy has been dialled, `DialTCP` ends with an open connection without a deadline, or with
-- an error and a closed connection, whatever the proxy sends and whichever call on the connection
-- fails. If the dial fails, there is no connection.
pub dial_tcp-IsClean :
    (ip_text : List ℕ → List ℕ) (decimal : ℕ → List ℕ) (parse_ip : List ℕ → Option (List ℕ))
    (s : Socks5Client) (c : Conn) (dst_ip : List ℕ) (dst_port : ℤ)
    → c.closed ≡ false
    → (out : Out (Unit {0})) × (dial_tcp ip_text decimal parse_ip s (some c) dst_ip dst_port
        ≡ some out)
      × IsClean out
unfolding dial_tcp
dial_tcp-IsClean ip_text decimal parse_ip s c dst_ip dst_port open_now =
    let ends = >>=-Ends c _ _ open_now (set_deadline-Keeps true c) (λ _ d h.
      >>=-Ends d _ _ h (handshake-Keeps s d) (λ _ e k.
        >>=-Ends e _ _ k (send_connect-Keeps ip_text decimal parse_ip e dst_ip dst_port)
          (λ _ x l. set_deadline_with-Ends x x.deadline_faults l))) in
    (_, refl, ends.clean)

-- The outcome of `UDPAssociate` once the proxy is dialled: an open connection without a deadline
-- and a bound socket, or an error, a closed connection, and no socket that is still bound.
abbrev pub IsReleased : {R : Type 0} → Association R → Type 0
IsReleased (associated relay c socket) =
    (c.closed ≡ false) × (c.deadline ≡ false) × (socket ≡ bound)
IsReleased (gave_up e c socket) = (c.closed ≡ true) × (socket ≢ bound)

module _ (ip_text : List ℕ → List ℕ) (decimal : ℕ → List ℕ) {R : Type 0}
    (resolve : List ℕ → Option R) where
  cleared-Ends :
      (addr : R) (c : Conn) (faults : List Bool)
      → c.closed ≡ false
      → Ends (set_deadline false (record c { deadline_faults = faults }) >>= λ x. done addr x.1)
  unfolding set_deadline
  cleared-Ends addr c [] h = record { clean = (h, refl) }
  cleared-Ends addr c (false ∷ faults) h = record { clean = (h, refl) }
  cleared-Ends addr c (true ∷ faults) h = record { clean = refl }

  resolved-Ends :
      (relay : Option R) (c : Conn)
      → c.closed ≡ false
      → Ends (elim relay as (λ _. Out R) [
        | none ↦ failed resolve_failed c
        | some addr ↦ (do (_, c) ← set_deadline false c; done addr c)
      ])
  resolved-Ends none c h = record { clean = refl }
  resolved-Ends (some addr) c h = cleared-Ends addr c c.deadline_faults h

  request_relay-Ends :
      (bound_port : ℕ) (c : Conn)
      → c.closed ≡ false
      → Ends (request_relay ip_text decimal resolve bound_port c)
  unfolding request_relay
  request_relay-Ends bound_port c h =
      >>=-Ends c _ _ h (write-Keeps (associate_request ip_text decimal bound_port) c) (λ _ d k.
        >>=-Ends d _ _ k (read_socks_address-Keeps ip_text decimal d)
          (λ relay e l. resolved-Ends (resolve relay) e l))

  after_request-IsReleased :
      (m : Out R) → Ends m → IsReleased (after_request ip_text decimal resolve m)
  unfolding after_request
  after_request-IsReleased (done addr c) h = (h.clean.0, h.clean.1, refl)
  after_request-IsReleased (failed e c) h = (h.clean, λ e. absurd (cc))

  after_handshake-IsReleased :
      (listen : Option ℕ) (c : Conn) (m : Out (Unit {0}))
      → c.closed ≡ false
      → Keeps c m
      → IsReleased (after_handshake ip_text decimal resolve listen m)
  unfolding after_handshake
  after_handshake-IsReleased listen c (failed e d) h k = (refl, λ e. absurd (cc))
  after_handshake-IsReleased none c (done _ d) h k = (refl, λ e. absurd (cc))
  after_handshake-IsReleased (some bound_port) c (done _ d) h k =
      after_request-IsReleased (request_relay ip_text decimal resolve bound_port d)
        (request_relay-Ends bound_port d (k.same ∙ h))

  -- If the proxy has been dialled, `UDPAssociate` ends with an open connection without a deadline
  -- and a bound socket, or with an error, a closed connection and no bound socket, whatever the
  -- proxy sends and whichever call fails.
  pub udp_associate-IsReleased :
      (s : Socks5Client) (c : Conn) (listen : Option ℕ)
      → c.closed ≡ false
      → (a : Association R) × (udp_associate ip_text decimal resolve s (some c) listen ≡ some a)
        × IsReleased a
  unfolding udp_associate
  udp_associate-IsReleased s c listen h = (
    _,
    refl,
    after_handshake-IsReleased listen c _ h (
        >>=-Keeps c _ _ (set_deadline-Keeps true c)
          (λ _ d k. Keeps-trans c d _ k (handshake-Keeps s d))),
  )
