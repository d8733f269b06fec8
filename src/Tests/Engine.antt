-- ===== src/Tests/Engine.antt =====
-- The read loop of go/engine.go on a few packets.
use teapod_tun2socks.Prelude.{
  ℕ, ◌≡◌, ◌++◌, List, [], ◌∷◌, true, false, ret, arith, replicate, refl, pos,
}
use teapod_tun2socks.Packet.Ipv6.Chain.{PacketChain, options, upper}
use teapod_tun2socks.Engine.WriteLoop.{no_packet, written, refused, Writer, tun_write_loop}
use teapod_tun2socks.Engine.WriteLoop
use teapod_tun2socks.Engine.WriteLoop.Accounting.{IsAccounted, tun_write_loop_accounts}
use teapod_tun2socks.Engine.ReadLoop.{
  Engine, Round, packet, stopped, tun_read_loop, handle_ipv6, inject, ipv6_protocol,
}
use teapod_tun2socks.Engine.ReadLoop.Safety.{Keeps, tun_read_loop_safe}
use teapod_tun2socks.Engine.ReadLoop.Evasion.{handle_ipv6_evaded}

-- Both filters are on.
abbrev filtering : Engine
filtering = record {
  allow_icmp = false;
  block_quic = true;
  tx_bytes = 0;
  quic_rejects = 0;
  written = [];
  injected = [];
  stop_triggered = false;
}

abbrev ping : List ℕ
ping =
    0x45 ∷ 0 ∷ 0 ∷ 28 ∷ 0 ∷ 0 ∷ 0 ∷ 0 ∷ 64 ∷ 1 ∷ 0 ∷ 0 ∷ 10 ∷ 0 ∷ 0 ∷ 1 ∷ 1 ∷ 2 ∷ 3 ∷ 4 ∷ 8 ∷ 0 ∷ []

abbrev rounds : List Round
rounds = packet ping ∷ packet [] ∷ packet (0x45 ∷ 1 ∷ []) ∷ stopped ∷ []

tun_read_loop_safe_example :
    (e' : Engine) × (tun_read_loop rounds filtering ≡ ret e') × Keeps filtering e'
tun_read_loop_safe_example = tun_read_loop_safe rounds filtering tt

-- An echo request behind eight Destination Options headers.
abbrev option_header : ℕ → List ℕ
option_header next = next ∷ 0 ∷ 1 ∷ 4 ∷ 0 ∷ 0 ∷ 0 ∷ 0 ∷ []

abbrev seven_headers : List ℕ
seven_headers =
    option_header 60
    ++ (option_header 60
        ++ (option_header 60
            ++ (option_header 60 ++ (option_header 60 ++ (option_header 60 ++ option_header 60)))))

abbrev hidden_ping : List ℕ
hidden_ping =
    (0x60 ∷ 0 ∷ 0 ∷ 0 ∷ 0 ∷ 72 ∷ 60 ∷ 64 ∷ replicate 32 1)
    ++ (seven_headers ++ (option_header 58 ++ (128 ∷ 0 ∷ 0 ∷ 0 ∷ 0 ∷ 1 ∷ 0 ∷ 1 ∷ [])))

hidden_ping-PacketChain : PacketChain hidden_ping 8 58 104
hidden_ping-PacketChain = (
  omega arith,
  options refl (omega arith) (
      options refl (omega arith) (
        options refl (omega arith) (
          options refl (omega arith) (
            options refl (omega arith) (
              options refl (omega arith) (
                options refl (omega arith) (
                  options refl (omega arith) (
                    upper refl (λ e. absurd (omega arith)) (λ e. absurd (omega arith))
                      (omega arith))))))))),
)

handle_ipv6_evaded_example :
    handle_ipv6 filtering hidden_ping ≡ ret (inject filtering ipv6_protocol hidden_ping)
handle_ipv6_evaded_example =
    handle_ipv6_evaded filtering hidden_ping 8 58 104 (omega arith) hidden_ping-PacketChain

-- A counter near its end, a packet that the device refuses, and one that it takes.
abbrev near_end : Writer
near_end = record {
  rx_bytes = 18446744073709551614;
  last_rx_ms = pos 3;
  device = [];
  held = 0;
  returned = false;
}

abbrev sent_rounds : List WriteLoop.Round
sent_rounds = refused ping ∷ written (0x45 ∷ 0 ∷ 0 ∷ []) (pos 9) ∷ no_packet ∷ []

tun_write_loop_accounts_example :
    IsAccounted sent_rounds near_end (tun_write_loop sent_rounds near_end)
tun_write_loop_accounts_example = tun_write_loop_accounts sent_rounds near_end (omega arith)
