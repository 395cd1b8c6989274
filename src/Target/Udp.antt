-- ===== src/Target/Udp.antt =====
-- cmd/target/main.go: the session of the UDP mouse channel and its reader.
pub mod Sequence
use ea_share.Base.{
  ℕ, ◌+◌, not, Option, none, some, List, [], ◌∷◌, ◌++◌, Bytes, length, take, ◌==◌, leb,
  if◌then◌else◌,
}
use ea_share.Mousesync.{Hmac, Packet, packet_size, decode_packet}

-- `udpMouseSession`; `none` is a nil key.
pub record UdpSession : Type 0 where
  pub key : Option Bytes
  pub last_seq : ℕ

unfoldable pub start : Bytes → UdpSession → UdpSession
start key s = record s { key = some key; last_seq = 0 }

unfoldable pub stop : UdpSession → UdpSession
stop s = record s { key = none }

module _ (mac : Hmac) where
  unfoldable pub accept : UdpSession → Option Packet → UdpSession × List Packet
  accept s none = (s, [])
  accept s (some p) =
      if leb p.seq s.last_seq then (s, []) else (record s { last_seq = p.seq }, p ∷ [])

  -- `apply`: the session afterwards, and the packet to whose position the cursor is warped, if any. The warp follows
  -- the unlock; packets are applied by one goroutine, so their warps keep this order among themselves.
  unfoldable pub apply : Bytes → UdpSession → UdpSession × List Packet
  apply buf s = elim s.key [ none ↦ (s, []) | some key ↦ accept s (decode_packet mac key buf) ]

  -- `n != mousesync.PacketSize` and the call of `apply`.
  unfoldable pub apply_sized : Bytes → UdpSession → UdpSession × List Packet
  apply_sized buf s = if not (length buf == packet_size) then (s, []) else apply buf s

  -- One round of `serveMouseUDP`: the buffer holds one byte more than a packet.
  unfoldable pub receive : Bytes → UdpSession → UdpSession × List Packet
  receive datagram = apply_sized (take (packet_size + 1) datagram)

  -- The loop over the datagrams that arrive, with the packets applied, in order.
  unfoldable pub serve_mouse_udp : List Bytes → UdpSession → UdpSession × List Packet
  serve_mouse_udp [] s = (s, [])
  serve_mouse_udp (d ∷ ds) s =
      let (s', now) = receive d s in let (s'', later) = serve_mouse_udp ds s' in (s'', now ++ later)
