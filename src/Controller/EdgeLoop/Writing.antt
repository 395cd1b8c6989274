-- ===== src/Controller/EdgeLoop/Writing.antt =====
-- What a round of the loop writes, while there is no UDP channel: at most one message.
use ea_share.Base.{
  ◌+◌, ◌-◌, ◌≤◌, ◌≡◌, refl, Bool, true, false, not, ◌&&◌, Bool-cases, inl, inr, Option, none, some,
  ◌∷◌, [], ◌++◌, arith, length, Bytes, if◌then◌else◌, ℤ, add32,
}
use ea_share.Float.{Float}
use ea_share.Stream.{Writer}
use ea_share.Capture.{Event, key, mouse_move, mouse_button, mouse_wheel, edge_crossed, hotkey_paste}
use ea_share.Mousesync.{Hmac}
use ea_share.Protocol.{Message, message, MsgType, Json, max_message_size}
use ea_share.Protocol.Framing.{write_message_fits, frame}
use ea_share.Controller.EdgeMath.{pushes_past, entry_position}
use ea_share.Controller.EdgeLoop.{
  Session, Loop, Outcome, running, entry_edge, send_message, finish_write, forward, on_edge_crossed,
  send_move, send_delta, hand_back, track, on_mouse_move, handle, paste,
}

module _ (fl : Float) (json : Json fl) (mac : Hmac) (c : Session) where
  -- Whether a move hands control back.
  abbrev hands_back : ℤ → ℤ → Loop → Bool
  hands_back dx dy l =
      l.moved_away
      && pushes_past (entry_edge c) (add32 l.vx dx) (add32 l.vy dy) c.target_w c.target_h

  if_engaged : Message fl → Loop → Option (Message fl)
  if_engaged m l = if l.engaged then some m else none

  -- The message that the loop writes for an event.
  unfoldable pub message_at : Event fl → Loop → Option (Message fl)
  unfolding if_engaged
  message_at (edge_crossed r) l =
      some (record (message fl MsgType.engage) { edge = c.edge; rel_pos = r })
  message_at (mouse_move dx dy) l =
      if hands_back dx dy l
      then none
      else if_engaged (record (message fl MsgType.mouse_move) { dx = dx; dy = dy }) l
  message_at (key n d) l = if_engaged (record (message fl MsgType.key) { key = n; down = d }) l
  message_at (mouse_button b d) l =
      if_engaged (record (message fl MsgType.mouse_button) { button = b; down = d }) l
  message_at (mouse_wheel a) l =
      if_engaged (record (message fl MsgType.mouse_wheel) { amount = a }) l
  message_at hotkey_paste l = none

  -- The loop after an event, but for its connection.
  unfoldable pub quiet : Event fl → Loop → Loop
  quiet (edge_crossed r) l =
      let (x, y) = entry_position fl (entry_edge c) r c.target_w c.target_h in
      record l { engaged = true; moved_away = false; vx = x; vy = y }
  quiet (mouse_move dx dy) l =
      let nx = add32 l.vx dx in
      let ny = add32 l.vy dy in
      if not l.engaged
      then l
      else if hands_back dx dy l
      then hand_back fl json mac c nx ny l
      else track fl json mac c (pushes_past (entry_edge c) nx ny c.target_w c.target_h) nx ny l
  quiet (key n d) l = l
  quiet (mouse_button b d) l = l
  quiet (mouse_wheel a) l = l
  quiet hotkey_paste l =
      if c.has_clip then record l { actions = l.actions ++ (paste l.engaged ∷ []) } else l

  abbrev pub written : Option (Message fl) → Loop → Outcome
  written none l = running l
  written (some m) l = send_message fl json mac c m l

  forward-written :
      (m : Message fl) (l : Loop) → forward fl json mac c m l ≡ written (if_engaged m l) l
  unfolding forward if_engaged
  forward-written m l = elim (Bool-cases l.engaged) [ inl e ↦ rw e refl | inr e ↦ rw e refl ]

  send_move-tcp :
      (dx dy : ℤ) (l : Loop)
      → l.udp ≡ none
      → send_move fl json mac c dx dy l
        ≡ send_message fl json mac c (record (message fl MsgType.mouse_move) { dx = dx; dy = dy }) l
  unfolding send_move send_delta
  send_move-tcp dx dy l u = ground (arith, u)

  on_mouse_move-written :
      (dx dy : ℤ) (l : Loop)
      → l.udp ≡ none
      → on_mouse_move fl json mac c dx dy l
        ≡ written (message_at (mouse_move dx dy) l) (quiet (mouse_move dx dy) l)
  unfolding on_mouse_move message_at quiet if_engaged
  on_mouse_move-written dx dy l u =
      let out = pushes_past (entry_edge c) (add32 l.vx dx) (add32 l.vy dy) c.target_w c.target_h in
      let kept = track fl json mac c out (add32 l.vx dx) (add32 l.vy dy) l in
      let same : kept.udp ≡ none = unfold track in u in
      let tcp = send_move-tcp dx dy kept same in
      elim (Bool-cases l.engaged) [
        | inl e ↦ elim (Bool-cases (hands_back dx dy l)) [
          | inl h ↦ ground (arith, e, h)
          | inr h ↦ ground (arith, e, h, tcp)
        ]
        | inr e ↦ ground (arith, e)
      ]

  pub handle-quiet :
      (e : Event fl) (l : Loop)
      → l.udp ≡ none
      → handle fl json mac c e l ≡ written (message_at e l) (quiet e l)
  unfolding handle quiet message_at on_edge_crossed on_mouse_move send_move send_delta if_engaged
  handle-quiet (edge_crossed r) l u = refl
  handle-quiet (mouse_move dx dy) l u = on_mouse_move-written dx dy l u
  handle-quiet (key n d) l u = forward-written _ l
  handle-quiet (mouse_button b d) l u = forward-written _ l
  handle-quiet (mouse_wheel a) l u = forward-written _ l
  handle-quiet hotkey_paste l u = elim (Bool-cases c.has_clip) [
    | inl e ↦ rw e refl
    | inr e ↦ rw e refl
  ]

  -- The connection after a frame.
  abbrev pub framed : Bytes → Writer → Writer
  framed body w = record { sent = w.sent ++ frame body; room = w.room - (length body + 4) }

  pub send_message-fits :
      (m : Message fl) (body : Bytes) (l : Loop)
      → json.marshal m ≡ some body
      → length body ≤ max_message_size
      → length body + 4 ≤ l.conn.room
      → send_message fl json mac c m l ≡ running (record l { conn = framed body l.conn })
  unfolding send_message finish_write
  send_message-fits m body l e small room =
      rw (write_message_fits fl json l.conn m body e small room) refl

  pub quiet-conn : (e : Event fl) (l : Loop) → (quiet e l).conn ≡ l.conn
  unfolding quiet hand_back track
  quiet-conn (edge_crossed r) l = refl
  quiet-conn (mouse_move dx dy) l = ground arith
  quiet-conn (key n d) l = refl
  quiet-conn (mouse_button b d) l = refl
  quiet-conn (mouse_wheel a) l = refl
  quiet-conn hotkey_paste l = ground arith

  pub quiet-udp : (e : Event fl) (l : Loop) → (quiet e l).udp ≡ l.udp
  unfolding quiet hand_back track
  quiet-udp (edge_crossed r) l = refl
  quiet-udp (mouse_move dx dy) l = ground arith
  quiet-udp (key n d) l = refl
  quiet-udp (mouse_button b d) l = refl
  quiet-udp (mouse_wheel a) l = refl
  quiet-udp hotkey_paste l = ground arith
