-- ===== src/Engine.antt =====
-- go/engine.go: the engine between the TUN device and the network stack.
pub mod ReadLoop
pub mod Instance
pub mod Diagnostics
pub mod WriteLoop
pub mod Idle
pub mod Pipe
pub mod Relay
pub mod Forward
pub mod Sessions
pub mod UdpSessions
pub mod Flows
pub mod Lifecycle
