-- ===== src/Engine/Pipe/Delivery.antt =====
-- What a pipe writes of what it has read.
use mathlib.Core.List.{append-nil, append_assoc}
use teapod_tun2socks.Prelude.{
  Bool-cases, inl, inr, ℕ, ℤ, ◌≡◌, refl, ap, List, [], ◌∷◌, ◌++◌, take, drop, take-append-drop,
  true, false, Option, none, some,
}
use teapod_tun2socks.Engine.Idle.{idle_verdict}
use teapod_tun2socks.Engine.Pipe.{
  ReadError, timed_out, eof, broken, Pc, reading, stamping, writing, failing, judging, closing,
  ended, Lane, Flow, Direction, upward, downward, Event, read_returns, clock, write_returns,
  close_write_returns, go_on, Effect, quiet, kill, shut_down, touch, after, judge, advance,
  shutdown, apply, lane, set_lane, step, finish,
}
use teapod_tun2socks.Engine.Pipe.Runs.{
  Reach, started, stepped, finished, Ensures, Ensures-some, step-Stepped, finish_lem,
}

-- What a pipe has read and not written yet.
abbrev pending : Pc → List ℕ
pending (stamping chunk err) = chunk
pending (writing chunk err) = chunk
pending _ = []

-- The written bytes are the first ones that were read.
abbrev pub IsPrefix : List ℕ → List ℕ → Type 0
IsPrefix a b = (rest : List ℕ) × (a ++ rest ≡ b)

-- While a pipe runs, it has written all that it has read but what it holds. At its end it may have
-- lost a tail, but not if it has passed an end of file on.
abbrev Keeps : Pc → Lane → Type 0
Keeps closing l = IsPrefix l.sent l.received × (l.fin ≡ false)
Keeps ended l = IsPrefix l.sent l.received × (l.fin ≡ true → l.sent ≡ l.received)
Keeps pc l = (l.sent ++ pending pc ≡ l.received) × (l.fin ≡ false)

after-Keeps :
    (err : Option ReadError) (l : Lane) → l.sent ≡ l.received → l.fin ≡ false → Keeps (after err) l
after-Keeps none l h k = (rw append-nil h, k)
after-Keeps (some e) l h k = (rw append-nil h, k)

all_sent : (l : Lane) → l.sent ++ [] ≡ l.received → l.sent ≡ l.received
all_sent l h = rw append-nil at h

-- The outcome of a step keeps the bytes in order.
abbrev Delivers : Lane × Effect → Type 0
Delivers (l, effect) = Keeps l.pc l

judge-Delivers :
    (now tx rx : ℤ) (l : Lane) → Keeps (judging now tx) l → Delivers (judge now tx rx l)
unfolding judge
judge-Delivers now tx rx l h = elim (Bool-cases (idle_verdict tx rx now).0) [
  | inl expired ↦ rw (expired, judge) (([], h.0), h.1)
  | inr lives ↦ rw (lives, judge) h
]

advance-Delivers :
    (pc : Pc) (e : Event) (tx rx : ℤ) (l : Lane)
    → Keeps pc l
    → Ensures (advance pc e tx rx l) Delivers
unfolding advance
advance-Delivers reading (read_returns [] err) tx rx l h = after-Keeps err _ (all_sent l h.0) h.1
advance-Delivers reading (read_returns (b ∷ chunk) err) tx rx l h =
    (ap (λ r. r ++ (b ∷ chunk)) (all_sent l h.0), h.1)
advance-Delivers (stamping chunk err) (clock now) tx rx l h = h
advance-Delivers (writing chunk err) (write_returns none) tx rx l h = after-Keeps err _ h.0 h.1
advance-Delivers (writing chunk err) (write_returns (some n)) tx rx l h = (
  (
    drop n chunk,
    rw (append_assoc l.sent (take n chunk) (drop n chunk), take-append-drop n chunk) h.0,
  ),
  h.1,
)
advance-Delivers (failing timed_out) (clock now) tx rx l h = h
advance-Delivers (failing eof) (close_write_returns true) tx rx l h =
    (([], h.0), λ _. all_sent l h.0)
advance-Delivers (failing eof) (close_write_returns false) tx rx l h = (([], h.0), h.1)
advance-Delivers (failing broken) go_on tx rx l h = (([], h.0), h.1)
advance-Delivers (judging now tx) go_on _ rx l h = judge-Delivers now tx rx l h
advance-Delivers closing go_on tx rx l h = (h.0, λ e. absurd (cc (e, h.1)))
advance-Delivers pc e tx rx l h = tt

-- Both lanes of a flow.
abbrev Both : Flow → Type 0
Both f = Keeps f.up.pc f.up × Keeps f.down.pc f.down

set_lane-Both :
    (d : Direction) (l : Lane) (f : Flow) → Keeps l.pc l → Both f → Both (set_lane d l f)
set_lane-Both upward l f h both = (h, both.1)
set_lane-Both downward l f h both = (both.0, h)

lane-Both : (d : Direction) (f : Flow) → Both f → Keeps (lane d f).pc (lane d f)
lane-Both upward f both = both.0
lane-Both downward f both = both.1

shutdown-Both : (f : Flow) → Both f → Both (shutdown f)
unfolding shutdown
shutdown-Both f both = elim (Bool-cases f.shut) [
  | inl shut ↦ rw (shut, shutdown) both
  | inr open_still ↦ rw (open_still, shutdown) both
]

apply-Both : (d : Direction) (effect : Effect) (f : Flow) → Both f → Both (apply d effect f)
unfolding apply
apply-Both d quiet f both = both
apply-Both d kill f both = both
apply-Both d shut_down f both = shutdown-Both f both
apply-Both upward (touch now) f both = both
apply-Both downward (touch now) f both = both

step-Both : (d : Direction) (e : Event) (f g : Flow) → Both f → step d e f ≡ some g → Both g
step-Both d e f g both h =
    let s = step-Stepped d e f g h in
    let keeps : Keeps s.own.pc s.own =
      Ensures-some Delivers _ (s.own, s.effect)
        (advance-Delivers (lane d f).pc e f.last_tx f.last_rx (lane d f) (lane-Both d f both))
        s.advanced in
    rw s.becomes (apply-Both d s.effect (set_lane d s.own f) (set_lane-Both d s.own f keeps both))

finish-Both : (f g : Flow) → Both f → finish f ≡ some g → Both g
finish-Both f g both h = rw ((finish_lem f g h).2) (shutdown-Both f both)

Reach-Both : {now : ℤ} {zombie_kills : ℕ} {f : Flow} → Reach now zombie_kills f → Both f
Reach-Both started = ((refl, refl), (refl, refl))
Reach-Both (stepped {f} {g} d e r h) = step-Both d e f g (Reach-Both r) h
Reach-Both (finished {f} {g} r _ h) = finish-Both f g (Reach-Both r) h

-- A lane that has lost nothing so far, or has lost a tail.
Keeps-IsPrefix :
    (pc : Pc) (l : Lane)
    → Keeps pc l
    → IsPrefix l.sent l.received × (l.fin ≡ true → l.sent ≡ l.received)
Keeps-IsPrefix closing l h = (h.0, λ e. absurd (cc (e, h.1)))
Keeps-IsPrefix ended l h = h
Keeps-IsPrefix pc l h = ((pending pc, h.0), λ e. absurd (cc (e, h.1)))

-- In every interleaving, and whatever the connections and the clock answer, what a pipe has written
-- is the beginning of what it has read; and if it has passed an end of file on, it has written all
-- that it has read.
pub pipe_delivers :
    {now : ℤ} {zombie_kills : ℕ} {f : Flow} (d : Direction)
    → Reach now zombie_kills f
    → IsPrefix (lane d f).sent (lane d f).received
      × ((lane d f).fin ≡ true → (lane d f).sent ≡ (lane d f).received)
pipe_delivers {f = f} d r = Keeps-IsPrefix (lane d f).pc (lane d f) (lane-Both d f (Reach-Both r))
