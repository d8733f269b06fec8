-- ===== src/Lib.antt =====
-- A model of teapod-tun2socks, the userspace network stack behind an Android VPN (the Go code under
-- go/), and the theorems that make it correct. Packets from the TUN device are filtered or answered
-- by the read loop; connections are validated for each app by a hook with a cache in front of the
-- Kotlin validator, and forwarded to a SOCKS5 proxy.
--
-- Parts and files:
-- - Prelude: numbers, bytes and lists that the parts share. `Go A` is a computation that returns or
--   panics; reading or slicing out of range panics. Machine integers keep their wrap-around.
-- - Cache (go/connection.go, `LRUCache`): the map and the list of elements of the source, refined by
--   a plain list of decisions (Cache/Spec). `Remove` of the source is `delete` here. A call holds the
--   mutex from beginning to end, so it is one step, and a history of calls is a list.
-- - Key (go/connection.go, `ConnectionKey`): the key of a flow and its text. `net.IP.String` is a
--   parameter.
-- - Hook (go/engine_hook.go, `EngineHook`): `Validate` over the cache. The validator is a parameter
--   that may change its own world. Hook/Interleaving splits the calls into their atomic accesses and
--   lets any number of goroutines run them in any order.
-- - Packet (go/icmp_reject.go and the filters of go/engine.go): the checksum, the walk over IPv6
--   extension headers, the echo and QUIC filters, and the Port Unreachable messages, with buffers
--   filled byte by byte. A packet is the list of its bytes.
-- - Socks (go/socks5.go): the datagram codec; the handshake, CONNECT and UDP ASSOCIATE over a
--   connection whose incoming bytes are any list and on which any write or `SetDeadline` may fail.
--   `net.IP.String`, `net.ParseIP`, the text of `%d` and `net.ResolveUDPAddr` are parameters.
-- - Engine/ReadLoop (go/engine.go): `tunReadLoop`, which drops, rejects or injects each packet that
--   it reads; what it reads is a list of events.
-- - Engine/Idle, Engine/Pipe (go/engine.go): `idleVerdict` and `pipeConnections`. The two pipes are
--   step functions that run in any order; what reads, writes and the clock answer are events.
-- - Engine/Relay (go/engine.go): `pipeUDP`. A round of one of its loops is a step; it uses the
--   datagram codec of Socks.
-- - Engine/Forward (go/engine.go): `handleTCPForwarder` and `handleUDPForwarder` over Hook and Socks,
--   and the callback of the UDP forwarder; Forward/Table has the tables of flows and
--   `CloseAllConnections`.
-- - Engine/Sessions (go/engine.go): the goroutine that `handleTCPForwarder` starts. It composes the
--   pipes, the table and the count: all TCP flows of an engine, interleaved, from `trackConn` to the
--   end of their goroutines.
-- - Engine/UdpSessions (go/engine.go): the same for UDP. It composes `pipeUDP`, the table and the
--   slots: all UDP flows of an engine, with the callback and the handlers that hold a slot.
-- - Engine/Flows (go/engine.go): all TCP and UDP flows of an engine over the server that they share;
--   the parts of Sessions and UdpSessions are its two projections.
-- - Engine/WriteLoop (go/engine.go): `tunWriteLoop`, over a list of events.
-- - Engine/Instance, Engine/Diagnostics (go/engine.go): the fields of `Engine` that the parts share;
--   `StatsLine` and `Diagnostics`. `%d`, `%.1f`, `json.Marshal` and what gVisor counts are parameters.
-- - Engine/Lifecycle (go/engine.go): `NewEngine`, `Start`, `Stop` and the ends of the two loops.
-- - Api (go/teapod_tun2socks.go): `TeapodTun2socks` over the lifecycles of the engines that it makes;
--   a pointer to an engine is its position in the list of all of them.
-- - Tests: the theorems at concrete inputs.
--
-- Bounds: the walk over extension headers runs for eight rounds, as in the source; the loop of the
-- checksum that folds carries is recursion on the order of the numbers, and needs no bound. The
-- buffer of `itoa` has six bytes, as in the source.
--
-- A run of the pipes or of the lifecycle is any sequence of their steps, of any length; the theorems
-- on their ends bound that length. Atomic counters keep their wrap-around at 64 bits; the conversion
-- of the settings of the cache to `int` keeps that at 32 bits of the 32-bit builds.
--
-- Not modelled: the lines for the log, `LogStats` among them; the gVisor stack, whose endpoints are
-- handles, and the options that `NewEngine` sets on it; the pool of buffers; and the Android code.
pub mod Prelude
pub mod Cache
pub mod Key
pub mod Hook
pub mod Packet
pub mod Socks
pub mod Engine
pub mod Api
mod Tests
