-- ===== src/Engine/Forward/Tcp.antt =====
-- `handleTCPForwarder`: whom it dials, and what it leaves behind on each of its paths.
use teapod_tun2socks.Prelude.{
  ℕ, ◌≡◌, ◌≢◌, refl, ℤ, pos, List, [], ◌∷◌, length, Bool, true, false, Option, none, some, ret, ◌⊎◌,
  inl, inr, Bool-cases, sym,
}
use teapod_tun2socks.Key.{new_key, protocol_tcp}
use teapod_tun2socks.Hook.{EngineHook}
use teapod_tun2socks.Hook.Interleaving.{System, Answered}
use teapod_tun2socks.Hook.Interleaving
use teapod_tun2socks.Hook.Calls.{validate-Decided, allowed-Answered, IsLogged, Decided-IsLogged}
use teapod_tun2socks.Socks.Stream.{Conn, Out, done, failed}
use teapod_tun2socks.Socks.Client.{Socks5Client}
use teapod_tun2socks.Socks.Dial.{dial_tcp}
use teapod_tun2socks.Socks.Dial.Cleanup.{IsClean, dial_tcp-IsClean}
use teapod_tun2socks.Engine.Forward.{
  Server, FlowId, Handled, next_id, dial_failed, count_tcp, track_tcp, after_dial, handle_tcp,
}

-- The connection that the client returned is clean; if the dial failed, there is none.
abbrev pub IsCleanDial : Option (Option (Out (Unit {0}))) → Type 0
IsCleanDial (some (some out)) = IsClean out
IsCleanDial _ = Unit

-- What the server keeps of the request, after the hook has been asked. `dialled` is what the client
-- returned.
abbrev pub Registers :
    {V : Type 0} → Option ℕ → Option (Option (Out (Unit {0}))) → Server V → Server V → Type 0
Registers (some app) (some (some (done _ c))) e e' = e' ≡ count_tcp (track_tcp app e)
Registers app (some _) e e' = e' ≡ dial_failed e
Registers app none e e' = e' ≡ e

-- Whether a flow is started.
abbrev pub flow_started : Option (Option (Out (Unit {0}))) → Bool
flow_started (some (some (done _ c))) = true
flow_started _ = false

-- What each path leaves behind: one call of `Complete`; an app's end that is either closed once, or
-- handed to a flow with a new number; a clean connection to the proxy; and the tables and counters
-- that fit.
pub record IsSafe {V : Type 0} (app : Option ℕ) (e e' : Server V)
    (r : Handled (Option (Out (Unit {0})))) : Type 0 where
  pub completed_once : length r.completes ≡ 1
  pub closed :
      (handle : ℕ)
      → app ≡ some handle
      → flow_started r.dialled ≡ false
      → (r.app_closes ≡ 1) × (r.started ≡ none)
  pub handed_over :
      flow_started r.dialled ≡ true → (r.app_closes ≡ 0) × (r.started ≡ some (next_id e))
  pub clean_dial : IsCleanDial r.dialled
  pub registers : Registers app r.dialled e e'

dialled-IsCleanDial :
    (m : Option (Out (Unit {0})))
    → (m ≡ none) ⊎ ((out : Out (Unit {0})) × (m ≡ some out) × IsClean out)
    → IsCleanDial (some m)
dialled-IsCleanDial m (inl failed_dial) = rw failed_dial tt
dialled-IsCleanDial m (inr (out, same, clean)) = rw same clean

dial_tcp-none :
    (ip_text : List ℕ → List ℕ) (decimal : ℕ → List ℕ) (parse_ip : List ℕ → Option (List ℕ))
    (s : Socks5Client) (dst_ip : List ℕ) (dst_port : ℤ)
    → dial_tcp ip_text decimal parse_ip s none dst_ip dst_port ≡ none
unfolding dial_tcp
dial_tcp-none ip_text decimal parse_ip s dst_ip dst_port = refl

module _ (ip_text : List ℕ → List ℕ) (decimal : ℕ → List ℕ) {V W : Type 0}
    (ask : V → List ℕ → ℤ → List ℕ → ℤ → ℤ → W → Bool × W) where
  after_dial-IsSafe :
      (app : ℕ) (out : Option (Out (Unit {0}))) (e : Server V)
      → IsCleanDial (some out)
      → IsSafe
          (some app)
          e
          (after_dial ip_text decimal ask app out e).0
          (after_dial ip_text decimal ask app out e).1
  unfolding after_dial
  after_dial-IsSafe app none e h = record {
    completed_once = refl;
    closed = λ _ _ _. (refl, refl);
    handed_over = λ k. absurd (cc k);
    clean_dial = tt;
    registers = refl;
  }
  after_dial-IsSafe app (some (failed err c)) e h = record {
    completed_once = refl;
    closed = λ _ _ _. (refl, refl);
    handed_over = λ k. absurd (cc k);
    clean_dial = h;
    registers = refl;
  }
  after_dial-IsSafe app (some (done _ c)) e h = record {
    completed_once = refl;
    closed = λ _ _ k. absurd (cc k);
    handed_over = λ _. (refl, refl);
    clean_dial = h;
    registers = refl;
  }

  not_created :
      (e : Server V)
      → IsSafe none e e
          (record { completes = true ∷ []; app_closes = 0; dialled = none; started = none })
  not_created e = record {
    completed_once = refl;
    closed = λ _ k. absurd (cc k);
    handed_over = λ k. absurd (cc k);
    clean_dial = tt;
    registers = refl;
  }

  not_dialled :
      (app : ℕ) (e : Server V)
      → IsSafe
          (some app)
          e
          e
          (record { completes = false ∷ []; app_closes = 1; dialled = none; started = none })
  not_dialled app e = record {
    completed_once = refl;
    closed = λ _ _ _. (refl, refl);
    handed_over = λ k. absurd (cc k);
    clean_dial = tt;
    registers = refl;
  }

  dial_tcp-IsCleanDial :
      (parse_ip : List ℕ → Option (List ℕ)) (s : Socks5Client) (proxy : Option Conn)
      (dst_ip : List ℕ) (dst_port : ℤ)
      → ((c : Conn) → proxy ≡ some c → c.closed ≡ false)
      → IsCleanDial (some (dial_tcp ip_text decimal parse_ip s proxy dst_ip dst_port))
  dial_tcp-IsCleanDial parse_ip s none dst_ip dst_port h =
      dialled-IsCleanDial (dial_tcp ip_text decimal parse_ip s none dst_ip dst_port)
        (inl (dial_tcp-none ip_text decimal parse_ip s dst_ip dst_port))
  dial_tcp-IsCleanDial parse_ip s (some c) dst_ip dst_port h =
      dialled-IsCleanDial (dial_tcp ip_text decimal parse_ip s (some c) dst_ip dst_port)
        (inr (dial_tcp-IsClean ip_text decimal parse_ip s c dst_ip dst_port (h c refl)))

  module _ {capacity ttl_seconds : ℤ} (s : System V W) (e : Server V)
      (reach : Interleaving.Reach ask capacity ttl_seconds s) (same : e.hook ≡ s.hook) where
    -- In every state that the goroutines can lead the hook to, and with an open connection if the
    -- proxy can be dialled, `handleTCPForwarder` gets through without a panic and calls `Complete`
    -- once. It calls the SOCKS5 client only if a validator that was set and was asked about this
    -- very flow has answered that it is allowed, in this call or in an earlier one; it asks the
    -- validator that is set at most once, about this flow. It leaves the app's end closed, or starts a flow over an open connection to the proxy without a
    -- deadline that is tracked under a new number and counted; a connection that is not used is
    -- closed, and a failed dial is counted.
    pub handle_tcp-IsSafe :
        (parse_ip : List ℕ → Option (List ℕ)) (client : Socks5Client) (app : Option ℕ) (id : FlowId)
        (t1 t2 : ℤ) (proxy : Option Conn) (w : W)
        → ((c : Conn) → proxy ≡ some c → c.closed ≡ false)
        → (e' : Server V) × (w' : W) × (r : Handled (Option (Out (Unit {0})))) × (h' : EngineHook V)
          × (t : System V W) × (handle_tcp ip_text decimal ask parse_ip client app id t1 t2 proxy w
                e
              ≡ ret (e', w', r))
          × IsSafe app (record e { hook = h' }) e' r
          × Interleaving.Reach ask capacity ttl_seconds t
          × (t.hook ≡ h')
          × (r.dialled ≢ none
              → Answered ask
                  (new_key ip_text id.src_ip id.src_port id.dst_ip id.dst_port protocol_tcp)
                  true
                  t.calls)
          × IsLogged ask
              (new_key ip_text id.src_ip id.src_port id.dst_ip id.dst_port protocol_tcp)
              s
              w
              w'
              t
    unfolding handle_tcp
    handle_tcp-IsSafe parse_ip client none id t1 t2 proxy w h = (
      e,
      w,
      record { completes = true ∷ []; app_closes = 0; dialled = none; started = none },
      e.hook,
      s,
      refl,
      not_created e,
      reach,
      sym same,
      λ k. absurd (k refl),
      inl (refl, refl),
    )
    handle_tcp-IsSafe parse_ip client (some app) id t1 t2 proxy w h =
        let (h', d, w', asked, (t, reach', hooked, justified)) =
          validate-Decided ip_text ask id.src_ip id.src_port id.dst_ip id.dst_port protocol_tcp s t1
            t2 w reach in
        let asked' = rw (← same) at asked in
        elim (Bool-cases d.0) [
          | inl allowed ↦
              let out =
                dial_tcp ip_text decimal parse_ip client proxy (ip_text id.dst_ip)
                  (pos id.dst_port) in
              let next = record e { hook = h' } in
              let (e', r) = after_dial ip_text decimal ask app out next in
              (
                e',
                w',
                r,
                h',
                t,
                rw (asked', allowed, handle_tcp) refl,
                after_dial-IsSafe app out next (
                    dial_tcp-IsCleanDial parse_ip client proxy (ip_text id.dst_ip) (pos id.dst_port)
                      h),
                reach',
                hooked,
                λ _. allowed-Answered allowed justified,
                Decided-IsLogged justified,
              )
          | inr denied ↦ (
            record e { hook = h' },
            w',
            record { completes = false ∷ []; app_closes = 1; dialled = none; started = none },
            h',
            t,
            rw (asked', denied, handle_tcp) refl,
            not_dialled app (record e { hook = h' }),
            reach',
            hooked,
            λ k. absurd (k refl),
            Decided-IsLogged justified,
          )
        ]
