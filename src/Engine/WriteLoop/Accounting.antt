-- ===== src/Engine/WriteLoop/Accounting.antt =====
-- What `tunWriteLoop` has written and counted after any rounds.
use teapod_tun2socks.Prelude.{
  ◌+◌, ◌-◌, ◌%◌, ◌<◌, ◌≡◌, refl, sym, ◌∙◌, List, [], ◌∷◌, ◌++◌, map, length, true, false, arith,
}
use teapod_tun2socks.Engine.WriteLoop.{
  Round, no_packet, written, refused, Writer, deliver, tun_write_loop, taken, bytes_of, last_time,
  is_done,
}
use mathlib.Core.List.{append-nil, append_assoc}

-- After the rounds, from one state to another: the device has the packets that it took, in order
-- and once each; they are counted, modulo 2^64; the time is that of the last of them; every packet
-- is released; and the loop has returned if the stack is done.
pub record IsAccounted (rounds : List Round) (w w' : Writer) : Type 0 where
  pub in_order : w'.device ≡ w.device ++ map (λ p. p.0) (taken rounds)
  pub counted : w'.rx_bytes ≡ (w.rx_bytes + bytes_of (taken rounds)) % 18446744073709551616
  pub stamped : w'.last_rx_ms ≡ last_time w.last_rx_ms (taken rounds)
  pub released : w'.held ≡ w.held
  pub ends : is_done rounds ≡ true → w'.returned ≡ true
  pub runs_on : is_done rounds ≡ false → w'.returned ≡ w.returned

-- In any rounds, from a counter below 2^64: the device gets exactly the packets that it takes
-- before the stack is done, in order and once each; `rxBytes` grows by their bytes and no others,
-- modulo 2^64; `lastRxMs` is the time of the last of them; every packet, written or refused, is
-- released; and the loop returns exactly if the stack is done.
pub tun_write_loop_accounts :
    (rounds : List Round) (w : Writer)
    → w.rx_bytes < 18446744073709551616
    → IsAccounted rounds w (tun_write_loop rounds w)
unfolding tun_write_loop deliver
tun_write_loop_accounts [] w h = record {
  in_order = sym (append-nil w.device);
  counted = omega arith;
  stamped = refl;
  released = refl;
  ends = λ k. absurd (cc k);
  runs_on = λ k. refl;
}
tun_write_loop_accounts (no_packet ∷ rounds) w h = record {
  in_order = sym (append-nil w.device);
  counted = omega arith;
  stamped = refl;
  released = refl;
  ends = λ k. refl;
  runs_on = λ k. absurd (cc k);
}
tun_write_loop_accounts (written pkt now ∷ rounds) w h =
    let next : Writer = record w {
      device = w.device ++ (pkt ∷ []);
      rx_bytes = (w.rx_bytes + length pkt) % 18446744073709551616;
      last_rx_ms = now;
      held = w.held + 1 - 1;
    } in
    let v = tun_write_loop_accounts rounds next (omega arith) in
    record {
      in_order = v.in_order ∙ append_assoc w.device (pkt ∷ []) (map (λ p. p.0) (taken rounds));
      counted = v.counted ∙ omega arith;
      stamped = v.stamped;
      released = v.released ∙ omega arith;
      ends = v.ends;
      runs_on = v.runs_on;
    }
tun_write_loop_accounts (refused pkt ∷ rounds) w h =
    let next : Writer = record w { held = w.held + 1 - 1 } in
    let v = tun_write_loop_accounts rounds next h in
    record {
      in_order = v.in_order;
      counted = v.counted;
      stamped = v.stamped;
      released = v.released ∙ omega arith;
      ends = v.ends;
      runs_on = v.runs_on;
    }
