-- ===== src/Engine/WriteLoop.antt =====
-- go/engine.go, `tunWriteLoop`: each packet that the network stack sends is written to the TUN
-- device. What the loop takes from the stack, and what a write to the device answers, is a list of
-- events. The log line of a failed write is left out.
pub mod Accounting
use teapod_tun2socks.Prelude.{
  ℕ, ◌+◌, ◌-◌, ◌%◌, ◌<◌, ◌≡◌, refl, ℤ, List, [], ◌∷◌, ◌++◌, map, length, length-append, Bool, true,
  false, arith,
}

-- A round: the stack has no packet and will have none, since the context is done; or it has a
-- packet, which the device takes at a time, or refuses.
pub data Round : Type 0 where
  no_packet : Round
  written : List ℕ → ℤ → Round
  refused : List ℕ → Round

-- The part of `Engine` that the loop uses. `device` is what the device has taken, in order;
-- `held` are the packets that the loop has taken from the stack and not released; `returned` says
-- that the loop has returned.
pub record Writer : Type 0 where
  pub rx_bytes : ℕ
  pub last_rx_ms : ℤ
  pub device : List (List ℕ)
  pub held : ℕ
  pub returned : Bool

-- `v.Release()` and `pkt.DecRef()`
abbrev pub release : Writer → Writer
release w = record w { held = w.held - 1 }

-- `pkt := e.endpoint.ReadContext(ctx)`, for a packet
abbrev pub acquire : Writer → Writer
acquire w = record w { held = w.held + 1 }

-- `e.rxBytes.Add(uint64(len(data)))` and `e.lastRxMs.Store(time.Now().UnixMilli())`, after a write
-- that succeeds
unfoldable pub deliver : List ℕ → ℤ → Writer → Writer
deliver data_bytes now w = record w {
  device = w.device ++ (data_bytes ∷ []);
  rx_bytes = (w.rx_bytes + length data_bytes) % 18446744073709551616;
  last_rx_ms = now;
}

-- `tunWriteLoop`, until it ends or the rounds do.
unfoldable pub tun_write_loop : List Round → Writer → Writer
unfolding deliver
tun_write_loop [] w = w
tun_write_loop (no_packet ∷ rounds) w = record w { returned = true }
tun_write_loop (written pkt now ∷ rounds) w =
    tun_write_loop rounds (release (deliver pkt now (acquire w)))
tun_write_loop (refused pkt ∷ rounds) w = tun_write_loop rounds (release (acquire w))

-- The packets that the device takes before the stack is done, with the times.
abbrev pub taken : List Round → List (List ℕ × ℤ)
taken [] = []
taken (no_packet ∷ rounds) = []
taken (written pkt now ∷ rounds) = (pkt, now) ∷ taken rounds
taken (refused pkt ∷ rounds) = taken rounds

abbrev pub bytes_of : List (List ℕ × ℤ) → ℕ
bytes_of [] = 0
bytes_of ((pkt, now) ∷ rest) = length pkt + bytes_of rest

abbrev pub last_time : ℤ → List (List ℕ × ℤ) → ℤ
last_time start [] = start
last_time start ((pkt, now) ∷ rest) = last_time now rest

-- The stack says that it is done.
abbrev pub is_done : List Round → Bool
is_done [] = false
is_done (no_packet ∷ rounds) = true
is_done (written pkt now ∷ rounds) = is_done rounds
is_done (refused pkt ∷ rounds) = is_done rounds
