-- ===== src/Socks/Dial.antt =====
-- go/socks5.go, `DialTCP` and `UDPAssociate`: what happens once the proxy has been dialled.
pub mod Connect
pub mod Keeps
pub mod Cleanup
pub mod Reads
pub mod Accepted
pub mod Associated
use teapod_tun2socks.Prelude.{ℕ, ◌/◌, ℤ, List, [], ◌∷◌, true, false, Option, some, none, to_u8}
use teapod_tun2socks.Socks.Stream.{
  Conn, Out, done, failed, write, set_deadline, close, or_close, ◌>>=◌, SocksError, listen_failed,
  resolve_failed,
}
use teapod_tun2socks.Socks.Client.{Socks5Client, handshake, send_connect, read_socks_address}

-- The local UDP socket of `UDPAssociate`.
pub data Socket : Type 0 where
  unbound bound released : Socket

-- `UDPAssociate` returns an association with the address of the relay, or an error; the connection
-- and the socket are as it leaves them.
pub data Association (R : Type 0) : Type 0 where
  associated : R → Conn → Socket → Association R
  gave_up : SocksError → Conn → Socket → Association R

module _ (ip_text : List ℕ → List ℕ) (decimal : ℕ → List ℕ) where
  -- `DialTCP`; `none` if the dial fails
  unfoldable pub dial_tcp :
      (List ℕ → Option (List ℕ)) → Socks5Client → Option Conn → List ℕ → ℤ → Option (Out (Unit {0}))
  dial_tcp parse_ip s none dst_ip dst_port = none
  dial_tcp parse_ip s (some c) dst_ip dst_port = some (
      or_close (do
        (_, c) ← set_deadline true c
        (_, c) ← handshake s c
        (_, c) ← send_connect ip_text decimal parse_ip c dst_ip dst_port
        set_deadline false c))

  -- The request of `UDPAssociate`, for the port of the socket.
  abbrev pub associate_request : ℕ → List ℕ
  associate_request bound_port =
      5 ∷ 3 ∷ 0 ∷ 1 ∷ 127 ∷ 0 ∷ 0 ∷ 1 ∷ to_u8 (bound_port / 256) ∷ to_u8 bound_port ∷ []

  module _ {R : Type 0} (resolve : List ℕ → Option R) where
    -- `UDPAssociate` from the request on.
    unfoldable pub request_relay : ℕ → Conn → Out R
    request_relay bound_port c = do
      (_, c) ← write (associate_request bound_port) c
      (relay, c) ← read_socks_address ip_text decimal c
      elim (resolve relay) [
        | none ↦ failed resolve_failed c
        | some addr ↦ (do (_, c) ← set_deadline false c; done addr c)
      ]

    -- `UDPAssociate` after the request: its errors close the socket and the connection.
    unfoldable pub after_request : Out R → Association R
    after_request (failed e c) = gave_up e (close c) released
    after_request (done addr c) = associated addr c bound

    -- `UDPAssociate` after the handshake. `listen` is the port of the new socket, if there is one.
    unfoldable pub after_handshake : Option ℕ → Out (Unit {0}) → Association R
    unfolding after_request
    after_handshake listen (failed e c) = gave_up e (close c) unbound
    after_handshake none (done _ c) = gave_up listen_failed (close c) unbound
    after_handshake (some bound_port) (done _ c) = after_request (request_relay bound_port c)

    -- `UDPAssociate`; `none` if the dial fails.
    unfoldable pub udp_associate : Socks5Client → Option Conn → Option ℕ → Option (Association R)
    unfolding after_handshake
    udp_associate s none listen = none
    udp_associate s (some c) listen =
        some (after_handshake listen (do (_, c) ← set_deadline true c; handshake s c))
