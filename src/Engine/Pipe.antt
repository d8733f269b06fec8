-- ===== src/Engine/Pipe.antt =====
-- go/engine.go, `pipeConnections`: the two goroutines that copy between the app and the proxy, and
-- the goroutine that waits for them. Each access that another goroutine can see is a step of its
-- own; what the connections and the clock answer is an event.
pub mod Runs
pub mod Delivery
pub mod Closing
pub mod Ending
use teapod_tun2socks.Prelude.{
  ℕ, ◌+◌, ◌%◌, ℤ, List, [], ◌∷◌, ◌++◌, take, Bool, true, false, ◌&&◌, Option, none, some,
  if◌then◌else◌,
}
use teapod_tun2socks.Engine.Idle.{idle_verdict}

-- How a `Read` fails: a net.Error with Timeout(), io.EOF, or anything else.
pub data ReadError : Type 0 where
  timed_out eof broken : ReadError

-- Where a pipe stands: before `Read`; before `touched.Store`; before `Write`; with a read error to
-- handle; with the time and `lastTxMs` loaded for `idleVerdict`; before `shutdown`; after its end.
-- `stamping` and `writing` hold the bytes read and the error that came with them.
pub data Pc : Type 0 where
  reading : Pc
  stamping writing : List ℕ → Option ReadError → Pc
  failing : ReadError → Pc
  judging : ℤ → ℤ → Pc
  closing ended : Pc

-- One direction. `received` is what it has read from its source, `sent` what it has written to its
-- destination, and `fin` says that it has passed an EOF on by `CloseWrite`.
pub record Lane : Type 0 where
  pub pc : Pc
  pub received : List ℕ
  pub sent : List ℕ
  pub fin : Bool

-- Both directions: `up` is `pipe(tc.proxy, tc.app, &tc.lastTxMs)`, `down` is
-- `pipe(tc.app, tc.proxy, &tc.lastRxMs)`. `shut` is the state of `once`; the calls of `Close` on
-- each end are counted. `returned` says that `pipeConnections` has returned.
pub record Flow : Type 0 where
  pub up : Lane
  pub down : Lane
  pub last_tx : ℤ
  pub last_rx : ℤ
  pub shut : Bool
  pub app_closes : ℕ
  pub proxy_closes : ℕ
  pub zombie_kills : ℕ
  pub returned : Bool

pub data Direction : Type 0 where
  upward downward : Direction

-- What a step meets: the outcome of `Read`; the time; the outcome of `Write`, `some n` if it fails
-- after `n` bytes; whether `CloseWrite` is there and succeeds; nothing.
pub data Event : Type 0 where
  read_returns : List ℕ → Option ReadError → Event
  clock : ℤ → Event
  write_returns : Option ℕ → Event
  close_write_returns : Bool → Event
  go_on : Event

-- What a step of a pipe does to the rest of the flow.
pub data Effect : Type 0 where
  quiet kill shut_down : Effect
  touch : ℤ → Effect

-- `if err != nil`, after the bytes are dealt with
abbrev pub after : Option ReadError → Pc
after none = reading
after (some e) = failing e

-- `tc.idleVerdict`, with `lastRxMs` loaded last, and what the pipe makes of it
unfoldable pub judge : ℤ → ℤ → ℤ → Lane → Lane × Effect
judge now tx rx l =
    let (expired, zombie) = idle_verdict tx rx now in
    if expired
    then (record l { pc = closing }, if zombie then kill else quiet)
    else (record l { pc = reading }, quiet)

-- A step of `pipe`; `none` if the event is not one that the pipe waits for.
unfoldable pub advance : Pc → Event → ℤ → ℤ → Lane → Option (Lane × Effect)
unfolding judge
advance reading (read_returns [] err) tx rx l = some (record l { pc = after err }, quiet)
advance reading (read_returns (b ∷ chunk) err) tx rx l =
    some (record l { pc = stamping (b ∷ chunk) err; received = l.received ++ (b ∷ chunk) }, quiet)
advance (stamping chunk err) (clock now) tx rx l =
    some (record l { pc = writing chunk err }, touch now)
advance (writing chunk err) (write_returns none) tx rx l =
    some (record l { pc = after err; sent = l.sent ++ chunk }, quiet)
advance (writing chunk err) (write_returns (some n)) tx rx l =
    some (record l { pc = closing; sent = l.sent ++ take n chunk }, quiet)
advance (failing timed_out) (clock now) tx rx l = some (record l { pc = judging now tx }, quiet)
advance (failing eof) (close_write_returns true) tx rx l =
    some (record l { pc = ended; fin = true }, quiet)
advance (failing eof) (close_write_returns false) tx rx l = some (record l { pc = closing }, quiet)
advance (failing broken) go_on tx rx l = some (record l { pc = closing }, quiet)
advance (judging now tx) go_on _ rx l = some (judge now tx rx l)
advance closing go_on tx rx l = some (record l { pc = ended }, shut_down)
advance _ _ tx rx l = none

-- `shutdown`, under `once`
unfoldable pub shutdown : Flow → Flow
shutdown f =
    if f.shut
    then f
    else record f { shut = true; app_closes = f.app_closes + 1; proxy_closes = f.proxy_closes + 1 }

-- `touched` is `lastTxMs` for the upward pipe, `lastRxMs` for the downward one.
unfoldable pub apply : Direction → Effect → Flow → Flow
unfolding shutdown
apply d quiet f = f
apply d kill f = record f { zombie_kills = (f.zombie_kills + 1) % 18446744073709551616 }
apply d shut_down f = shutdown f
apply upward (touch now) f = record f { last_tx = now }
apply downward (touch now) f = record f { last_rx = now }

abbrev pub lane : Direction → Flow → Lane
lane upward f = f.up
lane downward f = f.down

abbrev pub set_lane : Direction → Lane → Flow → Flow
set_lane upward l f = record f { up = l }
set_lane downward l f = record f { down = l }

-- A step of one of the two pipes.
unfoldable pub step : Direction → Event → Flow → Option Flow
unfolding advance apply
step d e f = elim (advance (lane d f).pc e f.last_tx f.last_rx (lane d f)) [
  | none ↦ none
  | some (l, effect) ↦ some (apply d effect (set_lane d l f))
]

abbrev pub is_ended : Pc → Bool
is_ended ended = true
is_ended _ = false

-- `wg.Wait()`, the deferred `shutdown`, and the return; `none` while a pipe still runs.
unfoldable pub finish : Flow → Option Flow
unfolding shutdown
finish f =
    if is_ended f.up.pc && is_ended f.down.pc
    then some (record (shutdown f) { returned = true })
    else none

abbrev start_lane : Lane
start_lane = record { pc = reading; received = []; sent = []; fin = false }

-- The flow as `handleTCPForwarder` starts it at a time.
abbrev pub start : ℤ → ℕ → Flow
start now zombie_kills = record {
  up = start_lane;
  down = start_lane;
  last_tx = now;
  last_rx = now;
  shut = false;
  app_closes = 0;
  proxy_closes = 0;
  zombie_kills = zombie_kills;
  returned = false;
}
