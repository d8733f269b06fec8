-- ===== src/Socks/Datagram.antt =====
-- go/socks5.go, `EncodeUDPDatagram` and `DecodeUDPDatagram`.
pub mod RoundTrip
pub mod Decisions
use teapod_tun2socks.Prelude.{
  ℕ, ◌+◌, ℤ, pos, List, length, ◌++◌, ltb, not, ◌==◌, if◌then◌else◌, Go, ret, ◌>>=◌, index, slice,
  slice_from, replicate, int_to_u16,
}
use teapod_tun2socks.Packet.Fields.{store, copy_into, put_uint16, uint16}
use teapod_tun2socks.Socks.Address.{destination}

-- `EncodeUDPDatagram`
unfoldable pub encode_udp_datagram : List ℕ → ℤ → List ℕ → Go (List ℕ)
encode_udp_datagram dst_ip dst_port payload = do
  let (atyp, addr) = destination dst_ip
  let size = 4 + length addr + 2
  hdr ← store (replicate size 0) 0 0
  hdr ← store hdr 1 0
  hdr ← store hdr 2 0
  hdr ← store hdr 3 atyp
  hdr ← copy_into hdr 4 size addr
  hdr ← put_uint16 hdr (4 + length addr) (int_to_u16 dst_port)
  ret (hdr ++ payload)

-- The errors of `DecodeUDPDatagram`, one for each `fmt.Errorf`.
pub data DecodeError : Type 0 where
  too_short ipv4_too_short ipv6_too_short : DecodeError
  fragmented unsupported_atyp : ℕ → DecodeError

pub data Decoded : Type 0 where
  decoded : List ℕ → ℤ → List ℕ → Decoded
  refused : DecodeError → Decoded

-- The fields of a datagram whose address ends at `end`.
unfoldable pub decode_from : List ℕ → ℕ → Go Decoded
decode_from data_bytes end = do
  src_ip ← slice data_bytes 4 end
  src_port ← slice data_bytes end (end + 2) >>= uint16
  payload ← slice_from data_bytes (end + 2)
  ret (decoded src_ip (pos src_port) payload)

-- `DecodeUDPDatagram`
unfoldable pub decode_udp_datagram : List ℕ → Go Decoded
unfolding decode_from
decode_udp_datagram data_bytes = if ltb (length data_bytes) 4 then ret (refused too_short) else (do
  frag ← index data_bytes 2
  if not (frag == 0) then ret (refused (fragmented frag)) else (do
    atyp ← index data_bytes 3
    if atyp == 1
        then (if ltb (length data_bytes) 10
            then ret (refused ipv4_too_short)
            else decode_from data_bytes 8)
        else if atyp == 4
        then (if ltb (length data_bytes) 22
            then ret (refused ipv6_too_short)
            else decode_from data_bytes 20)
        else ret (refused (unsupported_atyp atyp))))
