-- ===== src/Controller/EdgeLoop/Position.antt =====
-- The simulated cursor stays on the target's screen, and is what the UDP channel carries.
use ea_share.Base.{
  none, sub32, ◌<ℤ◌, ◌+ℤ◌, inl, inr, ◌⊎◌, ◌+◌, ◌-◌, ◌%◌, ◌^◌, ◌<◌, ◌≡◌, sym, ◌∙◌, refl, Bool, true,
  false, ◌&&◌, some, [], ◌∷◌, ◌++◌, arith, ℤ, pos, ◌≤ℤ◌, add32,
}
use ea_share.Float.{Float, FloatLaws, InUnit}
use ea_share.Protocol.{Json, message, MsgType}
use ea_share.Mousesync.{Hmac, encode_packet}
use ea_share.Capture.{Event, key, mouse_move, mouse_button, mouse_wheel, edge_crossed, hotkey_paste}
use ea_share.Capture.Windows.{edge_reached}
use ea_share.Controller.EdgeMath.{pushes_past, entry_position, release_rel_pos, clamp_i}
use ea_share.Controller.EdgeMath.Geometry.{
  IsSize, OnScreen, clamp_i-OnScreen, entry_position_bounds, IsDesktop, release_rel_pos_below,
  controller_warp_position_off_edge,
}
use ea_share.Controller.EdgeLoop.{
  Session, Loop, running, loop_of, entry_edge, handle, on_mouse_move, track, forward, send_move,
  on_edge_crossed, send_position, UdpClient, hand_back, disengage,
}
use ea_share.Controller.EdgeLoop.Engagement.{
  SameCursor, forward-SameCursor, send_message-SameCursor, send_move-SameCursor,
}

-- The crossings of an event list are at fractions of the edge.
abbrev pub IsCaptured : (fl : Float) → Event fl → Type 0
IsCaptured fl (edge_crossed r) = InUnit fl r
IsCaptured fl (key n d) = Unit {0}
IsCaptured fl (mouse_move x y) = Unit {0}
IsCaptured fl (mouse_button b d) = Unit {0}
IsCaptured fl (mouse_wheel a) = Unit {0}
IsCaptured fl hotkey_paste = Unit {0}

-- The place at which a crossing puts the cursor, and within one pixel of the screen.
abbrev pub IsEntered : Float → Session → Loop → Type 0
IsEntered fl c l =
    (l.moved_away ≡ false)
    × ((pos 0 ≤ℤ l.vx) × (l.vx ≤ℤ c.target_w) × (pos 0 ≤ℤ l.vy) × (l.vy ≤ℤ c.target_h))
    × ((r : fl.F) × InUnit fl r
        × ((l.vx, l.vy) ≡ entry_position fl (entry_edge c) r c.target_w c.target_h))

-- Where the simulated cursor is while engaged: on the screen, or still where the crossing put it.
abbrev pub IsTracked : Float → Session → Loop → Type 0
IsTracked fl c l = l.engaged ≡ true → OnScreen l.vx l.vy c.target_w c.target_h ⊎ IsEntered fl c l

-- A move that leaves the loop engaged.
abbrev pub IsMoved : {fl : Float} → Session → Event fl → Loop → Type 0
IsMoved c (mouse_move x y) l = l.engaged ≡ true → OnScreen l.vx l.vy c.target_w c.target_h
IsMoved c (edge_crossed r) l = Unit {0}
IsMoved c (key n d) l = Unit {0}
IsMoved c (mouse_button b d) l = Unit {0}
IsMoved c (mouse_wheel a) l = Unit {0}
IsMoved c hotkey_paste l = Unit {0}

SameCursor-IsTracked :
    (fl : Float) (c : Session) {l l' : Loop}
    → SameCursor l l'
    → IsTracked fl c l
    → IsTracked fl c l'
SameCursor-IsTracked fl c k h on = rw (k.vx, k.vy, k.moved_away) (h (sym k.engaged ∙ on))

module _ (fl : Float) (json : Json fl) (mac : Hmac) (c : Session) (laws : FloatLaws fl)
    (size : IsSize c.target_w c.target_h) where
  track-OnScreen :
      (out : Bool) (nx ny : ℤ) (l : Loop)
      → let m = track fl json mac c out nx ny l in OnScreen m.vx m.vy c.target_w c.target_h
  unfolding track
  track-OnScreen out nx ny l = clamp_i-OnScreen nx ny c.target_w c.target_h size

  on_mouse_move-OnScreen :
      (dx dy : ℤ) (l : Loop)
      → let m = loop_of (on_mouse_move fl json mac c dx dy l) in
        m.engaged ≡ true → OnScreen m.vx m.vy c.target_w c.target_h
  unfolding on_mouse_move hand_back
  on_mouse_move-OnScreen dx dy l on =
      let nx = add32 l.vx dx in
      let ny = add32 l.vy dy in
      let out = pushes_past (entry_edge c) nx ny c.target_w c.target_h in
      ground (
        arith,
        track-OnScreen out nx ny l,
        send_move-SameCursor fl json mac c dx dy (track fl json mac c out nx ny l),
      )

  -- For a screen size that the controller accepts, and with crossings at fractions of the edge: after every
  -- captured event that leaves the loop engaged, the simulated cursor is a pixel of the target's screen, or
  -- it has not moved away yet and is exactly where a crossing puts it, one pixel past a far corner at most; after every move it is a pixel, whatever
  -- the deltas, sums that wrap around included.
  pub handle-IsTracked :
      (e : Event fl) (l : Loop)
      → IsCaptured fl e
      → IsTracked fl c l
      → IsTracked fl c (loop_of (handle fl json mac c e l))
        × IsMoved c e (loop_of (handle fl json mac c e l))
  unfolding handle forward on_edge_crossed
  handle-IsTracked (mouse_move dx dy) l ok h =
      let moved = on_mouse_move-OnScreen dx dy l in (λ on. inl (moved on), moved)
  handle-IsTracked (edge_crossed r) l ok h =
      let (x, y) = entry_position fl (entry_edge c) r c.target_w c.target_h in
      let k =
        send_message-SameCursor fl json mac c
          (record (message fl MsgType.engage) { edge = c.edge; rel_pos = r })
          (record l { engaged = true; moved_away = false; vx = x; vy = y }) in
      let b = entry_position_bounds fl (entry_edge c) r c.target_w c.target_h laws size ok in
      (
        λ on.
            inr (k.moved_away, rw (k.vx, k.vy) (b.0, b.1, b.2, b.3), (r, ok, rw (k.vx, k.vy) refl)),
        _,
      )
  handle-IsTracked (key n d) l ok h =
      (SameCursor-IsTracked fl c (forward-SameCursor fl json mac c _ l) h, _)
  handle-IsTracked (mouse_button b d) l ok h =
      (SameCursor-IsTracked fl c (forward-SameCursor fl json mac c _ l) h, _)
  handle-IsTracked (mouse_wheel a) l ok h =
      (SameCursor-IsTracked fl c (forward-SameCursor fl json mac c _ l) h, _)
  handle-IsTracked hotkey_paste l ok h = (ground arith, _)

  -- The move that hands control back, wherever it would have taken the simulated cursor: the loop is not
  -- engaged any more, and its one new action sets the controller's own cursor to a pixel of its desktop (of at
  -- least three pixels each way, in int32s), off the edge, so that it triggers no new crossing.
  pub hand_back_inside :
      (nx ny : ℤ) (l : Loop)
      → IsDesktop c.bounds
      → let m = hand_back fl json mac c nx ny l in
        (m.engaged ≡ false)
        × ((x : ℤ) × (y : ℤ) × (m.actions ≡ l.actions ++ (disengage x y ∷ []))
            × (edge_reached fl c.edge c.bounds (record { px = x; py = y }) ≡ none)
            × (c.bounds.x ≤ℤ x)
            × (x <ℤ c.bounds.x +ℤ c.bounds.w)
            × (c.bounds.y ≤ℤ y)
            × (y <ℤ c.bounds.y +ℤ c.bounds.h))
  unfolding hand_back
  hand_back_inside nx ny l desk =
      let kx = clamp_i nx (pos 0) (sub32 c.target_w (pos 1)) in
      let ky = clamp_i ny (pos 0) (sub32 c.target_h (pos 1)) in
      let r = release_rel_pos fl (entry_edge c) kx ky c.target_w c.target_h in
      let (unit, below) =
        release_rel_pos_below fl (entry_edge c) kx ky c.target_w c.target_h laws size
          (clamp_i-OnScreen nx ny c.target_w c.target_h size) in
      let (off, left, right, top, bottom) =
        controller_warp_position_off_edge fl c.edge r c.bounds laws desk unit below in
      (refl, (_, _, refl, off, left, right, top, bottom))

  -- While the UDP channel works, a move that keeps control on the target writes one packet and nothing
  -- on TCP: the packet is the encoding, under the session key and the next sequence number, of the
  -- simulated position after the move, which is a pixel of the target's screen.
  pub on_mouse_move_udp :
      (dx dy : ℤ) (l : Loop) (u : UdpClient)
      → l.engaged ≡ true
      → (l.moved_away
          && pushes_past (entry_edge c) (add32 l.vx dx) (add32 l.vy dy) c.target_w c.target_h)
        ≡ false
      → l.udp ≡ some u
      → 0 < u.room
      → (m : Loop) × (on_mouse_move fl json mac c dx dy l ≡ running m)
        × (m.conn ≡ l.conn)
        × OnScreen m.vx m.vy c.target_w c.target_h
        × (m.udp
            ≡ some (record u {
              seq = (u.seq + 1) % 2 ^ 64;
              packets =
                  u.packets
                  ++ (encode_packet mac u.key
                        (record { seq = (u.seq + 1) % 2 ^ 64; x = m.vx; y = m.vy })
                      ∷ []);
              room = u.room - 1;
            }))
  unfolding on_mouse_move send_move send_position
  on_mouse_move_udp dx dy l u on stay live room =
      let nx = add32 l.vx dx in
      let ny = add32 l.vy dy in
      let out = pushes_past (entry_edge c) nx ny c.target_w c.target_h in
      let t = track fl json mac c out nx ny l in
      let next : UdpClient = record u {
        seq = (u.seq + 1) % 2 ^ 64;
        packets =
            u.packets
            ++ (encode_packet mac u.key (record { seq = (u.seq + 1) % 2 ^ 64; x = t.vx; y = t.vy })
                ∷ []);
        room = u.room - 1;
      } in
      let same : t.udp ≡ l.udp = unfold track in refl in
      (
        record t { udp = some next },
        ground arith,
        unfold track in refl,
        track-OnScreen out nx ny l,
        refl,
      )
