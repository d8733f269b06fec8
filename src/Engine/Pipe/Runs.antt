-- ===== src/Engine/Pipe/Runs.antt =====
-- Every interleaving of the two pipes and the goroutine that waits for them.
use teapod_tun2socks.Prelude.{
  true, ℕ, ℤ, ◌≡◌, Option, none, some, false, Option-cases, inl, inr, arith,
}
use teapod_tun2socks.Engine.Pipe.{
  is_ended, shutdown, Flow, Lane, Direction, Event, Effect, advance, apply, lane, set_lane, step,
  finish, start,
}

pub data Reach (now : ℤ) (zombie_kills : ℕ) : Flow → Type 0 where
  started : Reach now zombie_kills (start now zombie_kills)
  stepped :
      {f g : Flow} (d : Direction) (e : Event)
      → Reach now zombie_kills f
      → step d e f ≡ some g
      → Reach now zombie_kills g
  finished :
      {f g : Flow}
      → Reach now zombie_kills f
      → f.returned ≡ false
      → finish f ≡ some g
      → Reach now zombie_kills g

-- What holds of a result, if there is one.
abbrev pub Ensures {ℓ κ} : {A : Type ℓ} → Option A → (A → Type κ) → Type κ
Ensures none P = Unit
Ensures (some a) P = P a

pub Ensures-some {ℓ κ} :
    {A : Type ℓ} (P : A → Type κ) (m : Option A) (a : A) → Ensures m P → m ≡ some a → P a
Ensures-some P none a h e = absurd (cc)
Ensures-some P (some b) a h e = let same : b ≡ a = cc in rw (← same) h

-- What a step of a pipe does: a new state for its own lane, and an effect.
pub record Stepped (d : Direction) (e : Event) (f g : Flow) : Type 0 where
  pub own : Lane
  pub effect : Effect
  pub advanced : advance (lane d f).pc e f.last_tx f.last_rx (lane d f) ≡ some (own, effect)
  pub becomes : g ≡ apply d effect (set_lane d own f)

pub step-Stepped : (d : Direction) (e : Event) (f g : Flow) → step d e f ≡ some g → Stepped d e f g
unfolding step
step-Stepped d e f g h =
    elim (Option-cases (advance (lane d f).pc e f.last_tx f.last_rx (lane d f))) [
      | inl stuck ↦ absurd (cc (rw (stuck, step) at h))
      | inr ((l, effect), ran) ↦
          let taken : some (apply d effect (set_lane d l f)) ≡ some g = rw (ran, step) at h in
          record { own = l; effect = effect; advanced = ran; becomes = cc taken }
    ]

pub finish_lem :
    (f g : Flow)
    → finish f ≡ some g
    → (is_ended f.up.pc ≡ true)
      × (is_ended f.down.pc ≡ true)
      × (g ≡ record (shutdown f) { returned = true })
unfolding finish
finish_lem f g h = (ground arith, ground arith, ground arith)
