-- ===== src/Engine/Relay.antt =====
-- go/engine.go, `pipeUDP`: the two loops between the app and the UDP relay of the proxy, the
-- monitor of the control connection, and `shutdown`. A round of a loop is one step; what a read or
-- a write returns is its argument. The loops share nothing but `once`.
pub mod Runs
pub mod Rounds
pub mod Senders
pub mod Delivery
pub mod Closing
pub mod Tail
pub mod Ending
use teapod_tun2socks.Prelude.{
  ℕ, ◌+◌, ℤ, List, [], ◌∷◌, ◌++◌, length, take, Bool, true, false, ◌&&◌, ◌||◌, ◌==◌, Option, none,
  some, Go, ret, ◌>>=◌, if◌then◌else◌,
}
use teapod_tun2socks.Socks.Address.{same_bytes, mapped}
use teapod_tun2socks.Socks.Datagram.{
  encode_udp_datagram, decode_udp_datagram, Decoded, decoded, refused,
}

-- `net.UDPAddr`; a port is below 65536
pub record UdpAddr : Type 0 where
  pub ip : List ℕ
  pub port : ℕ

-- `net.IP.Equal`
unfoldable pub ip_equal : List ℕ → List ℕ → Bool
ip_equal ip x =
    same_bytes ip x
    || (((length ip == 4) && same_bytes (mapped ++ ip) x)
        || ((length x == 4) && same_bytes ip (mapped ++ x)))

-- The arguments of `pipeUDP` that do not change; `relay` is `assoc.RelayAddr`.
pub record Config : Type 0 where
  pub dst_ip : List ℕ
  pub dst_port : ℤ
  pub mtu : ℕ
  pub relay : UdpAddr

-- A goroutine is in its loop, at its deferred `shutdown`, or at its end.
pub data Stage : Type 0 where
  looping leaving left : Stage

-- `sent` are the datagrams written to the relay, `delivered` the payloads written to the app. The
-- calls of `Close` on the app's end, the UDP socket and the control connection are counted.
pub record Udp : Type 0 where
  pub sender : Stage
  pub receiver : Stage
  pub monitor : Stage
  pub sent : List (List ℕ)
  pub delivered : List (List ℕ)
  pub shut : Bool
  pub app_closes : ℕ
  pub socket_closes : ℕ
  pub ctrl_closes : ℕ
  pub returned : Bool

abbrev pub new_udp : Udp
new_udp = record {
  sender = looping;
  receiver = looping;
  monitor = looping;
  sent = [];
  delivered = [];
  shut = false;
  app_closes = 0;
  socket_closes = 0;
  ctrl_closes = 0;
  returned = false;
}

-- `UDPAssociation.Close`
abbrev pub close_association : Udp → Udp
close_association f = record f {
  socket_closes = f.socket_closes + 1;
  ctrl_closes = f.ctrl_closes + 1;
}

-- `shutdown`, under `once`
unfoldable pub shutdown : Udp → Udp
shutdown f =
    if f.shut
    then f
    else close_association (record f { shut = true; app_closes = f.app_closes + 1 })

-- A round of the loop that sends: a packet of the app, `none` if `Read` fails; and whether
-- `WriteToUDP` succeeds.
unfoldable pub send_round : Config → Option (List ℕ) → Bool → Udp → Go Udp
send_round c none ok f = ret (record f { sender = leaving })
send_round c (some packet) ok f = do
  datagram ← encode_udp_datagram c.dst_ip c.dst_port (take c.mtu packet)
  ret (if ok then record f { sent = f.sent ++ (datagram ∷ []) } else record f { sender = leaving })

-- The test of `from`
unfoldable pub is_relay : Config → Option UdpAddr → Bool
unfolding ip_equal
is_relay c none = false
is_relay c (some from) = ip_equal from.ip c.relay.ip && (from.port == c.relay.port)

-- What a round does with a datagram of the relay, if `gonetConn.Write` succeeds or fails.
unfoldable pub answer : Decoded → Bool → Udp → Udp
answer (refused e) ok f = f
answer (decoded src_ip src_port payload) true f = record f {
  delivered = f.delivered ++ (payload ∷ []);
}
answer (decoded src_ip src_port payload) false f = record f { receiver = leaving }

-- A round of the loop that receives: a datagram and its sender, `none` if `ReadFromUDP` fails.
unfoldable pub receive_round : Config → Option (List ℕ × Option UdpAddr) → Bool → Udp → Go Udp
unfolding is_relay answer
receive_round c none ok f = ret (record f { receiver = leaving })
receive_round c (some (packet, from)) ok f =
    if is_relay c from
    then (do d ← decode_udp_datagram (take (c.mtu + 22) packet); ret (answer d ok f))
    else ret f

pub data Goroutine : Type 0 where
  sending receiving monitoring : Goroutine

abbrev pub stage : Goroutine → Udp → Stage
stage sending f = f.sender
stage receiving f = f.receiver
stage monitoring f = f.monitor

abbrev pub set_stage : Goroutine → Stage → Udp → Udp
set_stage sending s f = record f { sender = s }
set_stage receiving s f = record f { receiver = s }
set_stage monitoring s f = record f { monitor = s }

-- The end of a goroutine: its deferred `shutdown`, and `wg.Done` in the two loops.
unfoldable pub leave : Goroutine → Udp → Udp
unfolding shutdown
leave who f = set_stage who left (shutdown f)

-- The deferred `shutdown` after `wg.Wait()`, and the return.
unfoldable pub finish : Udp → Udp
unfolding shutdown
finish f = record (shutdown f) { returned = true }
