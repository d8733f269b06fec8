-- ===== src/Engine/Forward/Udp.antt =====
-- `handleUDPForwarder`: for whom it opens an association, and what it leaves behind on each of its
-- paths.
use teapod_tun2socks.Prelude.{
  ℕ, ◌≡◌, ◌≢◌, refl, sym, ℤ, List, [], Bool, true, false, Option, none, some, ret, ◌⊎◌, inl, inr,
  Bool-cases,
}
use teapod_tun2socks.Key.{new_key, protocol_udp}
use teapod_tun2socks.Hook.{EngineHook}
use teapod_tun2socks.Hook.Interleaving.{System, Answered}
use teapod_tun2socks.Hook.Interleaving
use teapod_tun2socks.Hook.Calls.{validate-Decided, allowed-Answered, IsLogged, Decided-IsLogged}
use teapod_tun2socks.Socks.Stream.{Conn}
use teapod_tun2socks.Socks.Client.{Socks5Client}
use teapod_tun2socks.Socks.Dial.{udp_associate, Association, associated, gave_up}
use teapod_tun2socks.Socks.Dial.Cleanup.{IsReleased, udp_associate-IsReleased}
use teapod_tun2socks.Engine.Forward.{
  Server, FlowId, Handled, next_id, dial_failed, release_slot, track_udp, after_associate,
  handle_udp,
}

module _ {R : Type 0} where
  -- The association that the client returned holds its resources, or has given them back.
  abbrev pub IsCleanAssociation : Option (Option (Association R)) → Type 0
  IsCleanAssociation (some (some a)) = IsReleased a
  IsCleanAssociation _ = Unit

  -- Whether the relay is started.
  abbrev pub relay_started : Option (Option (Association R)) → Bool
  relay_started (some (some (associated _ _ _))) = true
  relay_started _ = false

  -- What the server keeps of the request, after the hook has been asked. The slot that the callback
  -- has reserved stays reserved for a relay, and is released on every other path.
  abbrev pub RegistersUdp :
      {V : Type 0} → Option ℕ → Option (Option (Association R)) → Server V → Server V → Type 0
  RegistersUdp (some app) (some (some (associated _ _ _))) e e' = e' ≡ track_udp app e
  RegistersUdp app (some _) e e' = e' ≡ release_slot (dial_failed e)
  RegistersUdp app none e e' = e' ≡ release_slot e

  -- What each path leaves behind: an app's end that is either closed once, or handed to a relay
  -- with a new number; no resource of the client that is held without a relay; and the tables,
  -- counters and slots that fit.
  pub record IsSafeUdp {V : Type 0} (app : Option ℕ) (e e' : Server V)
      (r : Handled (Option (Association R))) : Type 0 where
    pub closed :
        (handle : ℕ)
        → app ≡ some handle
        → relay_started r.dialled ≡ false
        → (r.app_closes ≡ 1) × (r.started ≡ none)
    pub handed_over :
        relay_started r.dialled ≡ true → (r.app_closes ≡ 0) × (r.started ≡ some (next_id e))
    pub clean : IsCleanAssociation r.dialled
    pub registers : RegistersUdp app r.dialled e e'

  associated-IsCleanAssociation :
      (m : Option (Association R))
      → (m ≡ none) ⊎ ((a : Association R) × (m ≡ some a) × IsReleased a)
      → IsCleanAssociation (some m)
  associated-IsCleanAssociation m (inl failed_dial) = rw failed_dial tt
  associated-IsCleanAssociation m (inr (a, same, released)) = rw same released

module _ (ip_text : List ℕ → List ℕ) (decimal : ℕ → List ℕ) {V W : Type 0}
    (ask : V → List ℕ → ℤ → List ℕ → ℤ → ℤ → W → Bool × W) {R : Type 0}
    (resolve : List ℕ → Option R) where
  after_associate-IsSafeUdp :
      (app : ℕ) (a : Option (Association R)) (e : Server V)
      → IsCleanAssociation (some a)
      → IsSafeUdp
          (some app)
          e
          (after_associate ip_text decimal ask resolve app a e).0
          (after_associate ip_text decimal ask resolve app a e).1
  unfolding after_associate
  after_associate-IsSafeUdp app none e h = record {
    closed = λ _ _ _. (refl, refl);
    handed_over = λ k. absurd (cc k);
    clean = tt;
    registers = refl;
  }
  after_associate-IsSafeUdp app (some (gave_up err c socket)) e h = record {
    closed = λ _ _ _. (refl, refl);
    handed_over = λ k. absurd (cc k);
    clean = h;
    registers = refl;
  }
  after_associate-IsSafeUdp app (some (associated relay c socket)) e h = record {
    closed = λ _ _ k. absurd (cc k);
    handed_over = λ _. (refl, refl);
    clean = h;
    registers = refl;
  }

  udp_associate-none :
      (s : Socks5Client) (listen : Option ℕ)
      → udp_associate ip_text decimal resolve s none listen ≡ none
  unfolding udp_associate
  udp_associate-none s listen = refl

  udp_associate-IsCleanAssociation :
      (s : Socks5Client) (proxy : Option Conn) (listen : Option ℕ)
      → ((c : Conn) → proxy ≡ some c → c.closed ≡ false)
      → IsCleanAssociation (some (udp_associate ip_text decimal resolve s proxy listen))
  udp_associate-IsCleanAssociation s none listen h =
      associated-IsCleanAssociation (udp_associate ip_text decimal resolve s none listen)
        (inl (udp_associate-none s listen))
  udp_associate-IsCleanAssociation s (some c) listen h =
      associated-IsCleanAssociation (udp_associate ip_text decimal resolve s (some c) listen)
        (inr (udp_associate-IsReleased ip_text decimal resolve s c listen (h c refl)))

  not_created :
      (e : Server V)
      → IsSafeUdp {R = R} none e
          (release_slot e)
          (record { completes = []; app_closes = 0; dialled = none; started = none })
  not_created e = record {
    closed = λ _ k. absurd (cc k);
    handed_over = λ k. absurd (cc k);
    clean = tt;
    registers = refl;
  }

  not_dialled :
      (app : ℕ) (e : Server V)
      → IsSafeUdp {R = R}
          (some app)
          e
          (release_slot e)
          (record { completes = []; app_closes = 1; dialled = none; started = none })
  not_dialled app e = record {
    closed = λ _ _ _. (refl, refl);
    handed_over = λ k. absurd (cc k);
    clean = tt;
    registers = refl;
  }

  module _ {capacity ttl_seconds : ℤ} (s : System V W) (e : Server V)
      (reach : Interleaving.Reach ask capacity ttl_seconds s) (same : e.hook ≡ s.hook) where
    -- In every state that the goroutines can lead the hook to, and with an open connection if the
    -- proxy can be dialled, `handleUDPForwarder` gets to the relay or to its end without a panic.
    -- It asks the proxy for an association only if a validator that was set and was asked about this
    -- very flow has answered that it is allowed, in this call or in an earlier one; it asks the
    -- validator that is set at most once, about this flow. It leaves the app's end closed, or starts a relay that is tracked under a new number, over an
    -- open control connection and a bound socket; an association that fails leaves neither; and the
    -- reserved slot stays with the relay, or is released.
    pub handle_udp-IsSafeUdp :
        (client : Socks5Client) (app : Option ℕ) (id : FlowId) (t1 t2 : ℤ) (proxy : Option Conn)
        (listen : Option ℕ) (w : W)
        → ((c : Conn) → proxy ≡ some c → c.closed ≡ false)
        → (e' : Server V) × (w' : W) × (r : Handled (Option (Association R))) × (h' : EngineHook V)
          × (t : System V W) × (handle_udp ip_text decimal ask resolve client app id t1 t2 proxy
                listen w e
              ≡ ret (e', w', r))
          × IsSafeUdp app (record e { hook = h' }) e' r
          × Interleaving.Reach ask capacity ttl_seconds t
          × (t.hook ≡ h')
          × (r.dialled ≢ none
              → Answered ask
                  (new_key ip_text id.src_ip id.src_port id.dst_ip id.dst_port protocol_udp)
                  true
                  t.calls)
          × IsLogged ask
              (new_key ip_text id.src_ip id.src_port id.dst_ip id.dst_port protocol_udp)
              s
              w
              w'
              t
    unfolding handle_udp
    handle_udp-IsSafeUdp client none id t1 t2 proxy listen w h = (
      release_slot e,
      w,
      record { completes = []; app_closes = 0; dialled = none; started = none },
      e.hook,
      s,
      refl,
      not_created e,
      reach,
      sym same,
      λ k. absurd (k refl),
      inl (refl, refl),
    )
    handle_udp-IsSafeUdp client (some app) id t1 t2 proxy listen w h =
        let (h', d, w', asked, (t, reach', hooked, justified)) =
          validate-Decided ip_text ask id.src_ip id.src_port id.dst_ip id.dst_port protocol_udp s t1
            t2 w reach in
        let asked' = rw (← same) at asked in
        elim (Bool-cases d.0) [
          | inl allowed ↦
              let a = udp_associate ip_text decimal resolve client proxy listen in
              let next = record e { hook = h' } in
              let (e', r) = after_associate ip_text decimal ask resolve app a next in
              (
                e',
                w',
                r,
                h',
                t,
                rw (asked', allowed, handle_udp) refl,
                after_associate-IsSafeUdp app a next
                    (udp_associate-IsCleanAssociation client proxy listen h),
                reach',
                hooked,
                λ _. allowed-Answered allowed justified,
                Decided-IsLogged justified,
              )
          | inr denied ↦ (
            release_slot (record e { hook = h' }),
            w',
            record { completes = []; app_closes = 1; dialled = none; started = none },
            h',
            t,
            rw (asked', denied, handle_udp) refl,
            not_dialled app (record e { hook = h' }),
            reach',
            hooked,
            λ k. absurd (k refl),
            Decided-IsLogged justified,
          )
        ]
