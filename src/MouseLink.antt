-- ===== src/MouseLink.antt =====
-- Both ends of the UDP mouse channel: cmd/controller/edge_windows.go and cmd/target/main.go.
use ea_share.Base.{
  ◌+◌, ◌%◌, ◌^◌, ◌<◌, ◌≡◌, refl, true, false, ◌&&◌, some, [], ◌∷◌, ◌++◌, arith, ℤ, add32, Bytes,
  IsInt32, int_laws,
}
use ea_share.Float.{Float, FloatLaws}
use ea_share.Protocol.{Json}
use ea_share.Mousesync.{Hmac, Packet, encode_packet}
use ea_share.Mousesync.Codec.{IsPacket}
use ea_share.Target.Udp.{UdpSession, receive}
use ea_share.Target.Udp.Sequence.{receive-encode_packet}
use ea_share.Controller.EdgeMath.{pushes_past}
use ea_share.Controller.EdgeMath.Geometry.{IsSize, OnScreen}
use ea_share.Controller.EdgeLoop.{Session, Loop, running, entry_edge, on_mouse_move, UdpClient}
use ea_share.Controller.EdgeLoop.Position.{on_mouse_move_udp}

-- A pixel of a screen is a pair of int32s.
OnScreen-IsInt32 : (x y w h : ℤ) → IsSize w h → OnScreen x y w h → IsInt32 x × IsInt32 y
OnScreen-IsInt32 x y w h size on = omega int_laws

module _ (fl : Float) (json : Json fl) (mac : Hmac) (c : Session) (laws : FloatLaws fl)
    (size : IsSize c.target_w c.target_h) where
  -- A move on the controller that keeps control on the target, over a working UDP channel whose two ends
  -- share the key: the loop sends one datagram, and a target that had applied none that is as new warps
  -- its cursor to exactly the position the controller then simulates, a pixel of its screen.
  pub on_mouse_move-receive :
      (dx dy : ℤ) (l : Loop) (u : UdpClient) (t : UdpSession)
      → l.engaged ≡ true
      → (l.moved_away
          && pushes_past (entry_edge c) (add32 l.vx dx) (add32 l.vy dy) c.target_w c.target_h)
        ≡ false
      → l.udp ≡ some u
      → 0 < u.room
      → t.key ≡ some u.key
      → t.last_seq < (u.seq + 1) % 2 ^ 64
      → (m : Loop) × (v : UdpClient) × (d : Bytes) × (on_mouse_move fl json mac c dx dy l
          ≡ running m)
        × OnScreen m.vx m.vy c.target_w c.target_h
        × (m.udp ≡ some v)
        × (v.packets ≡ u.packets ++ (d ∷ []))
        × (receive mac d t
            ≡ (record t { last_seq = v.seq }, record { seq = v.seq; x = m.vx; y = m.vy } ∷ []))
  on_mouse_move-receive dx dy l u t on stay live room shared newer =
      let (m, e, k, s, o) = on_mouse_move_udp fl json mac c laws size dx dy l u on stay live room in
      let p : Packet = record { seq = (u.seq + 1) % 2 ^ 64; x = m.vx; y = m.vy } in
      let (ix, iy) = OnScreen-IsInt32 m.vx m.vy c.target_w c.target_h size s in
      let ok : IsPacket p = (omega arith, ix, iy) in
      (
        m,
        _,
        encode_packet mac u.key p,
        e,
        s,
        o,
        refl,
        rw (receive-encode_packet mac u.key p t ok shared) (ground arith),
      )
