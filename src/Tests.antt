-- ===== src/Tests.antt =====
-- The theorems at concrete inputs.
mod Fixtures
mod Flows
mod Cache
mod Hook
mod Packet
mod Socks
mod Engine
mod Pipe
mod Relay
mod Sessions
mod UdpSessions
mod Forward
mod Lifecycle
mod Diagnostics
mod Api
