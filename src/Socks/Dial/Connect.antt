-- ===== src/Socks/Dial/Connect.antt =====
-- `DialTCP` and `UDPAssociate` against a proxy that answers well.
use teapod_tun2socks.Prelude.{ℕ, ℤ, ◌≡◌, refl, List, [], ◌++◌, true, false, Option, some}
use teapod_tun2socks.Socks.Stream.{done, set_deadline}
use teapod_tun2socks.Socks.Client.{Socks5Client, connect_request}
use teapod_tun2socks.Socks.Client.Replies.{
  BindAddress, IsBind, reply, healthy, Greeting, greeting, offered, handshake_lem, send_connect_lem,
}
use teapod_tun2socks.Socks.Dial.{dial_tcp}

-- On a connection without faults to a proxy that accepts the greeting and the request, `DialTCP`
-- succeeds. It has written the methods, the password if the proxy asks for it, and the request for
-- the destination; the deadline is cleared; and what the proxy sends behind its reply is unread, so
-- no byte of the tunnel is lost.
pub dial_tcp_connects :
    (ip_text : List ℕ → List ℕ) (decimal : ℕ → List ℕ) (parse_ip : List ℕ → Option (List ℕ))
    (s : Socks5Client) (dst_ip ip : List ℕ) (dst_port : ℤ) (g : Greeting) (rsv : ℕ)
    (a : BindAddress) (hi lo : ℕ) (tunnel : List ℕ)
    → parse_ip dst_ip ≡ some ip
    → IsBind a
    → dial_tcp ip_text decimal parse_ip s
        (some (healthy (greeting g ++ (reply rsv a hi lo ++ tunnel)) [] false))
        dst_ip
        dst_port
      ≡ some (done tt (healthy tunnel (offered s g [] ++ connect_request ip dst_port) false))
unfolding dial_tcp set_deadline
dial_tcp_connects ip_text decimal parse_ip s dst_ip ip dst_port g rsv a hi lo tunnel parsed h =
    rw
      (
        handshake_lem s g (reply rsv a hi lo ++ tunnel) [] true,
        send_connect_lem ip_text decimal parse_ip (offered s g []) true dst_ip ip dst_port rsv a hi
            lo tunnel parsed h,
      )
      refl
