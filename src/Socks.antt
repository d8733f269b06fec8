-- ===== src/Socks.antt =====
-- go/socks5.go: the client of the SOCKS5 proxy.
pub mod Address
pub mod Datagram
pub mod Stream
pub mod Client
pub mod Dial
