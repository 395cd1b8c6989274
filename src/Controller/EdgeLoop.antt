-- ===== src/Controller/EdgeLoop.antt =====
-- cmd/controller/edge_windows.go: the loop of `runEdgeAware` over the captured events.
pub mod Engagement
pub mod Position
pub mod Writing
use ea_share.Base.{
  ℕ, ◌+◌, ◌-◌, ◌%◌, ◌^◌, ◌≡◌, Bool, true, false, not, ◌&&◌, Option, none, some, List, [], ◌∷◌, ◌++◌,
  Bytes, ◌==◌, if◌then◌else◌, ℤ, pos, add32, sub32,
}
use ea_share.Float.{Float}
use ea_share.Stream.{Error, Writer}
use ea_share.Screen.{Bounds}
use ea_share.Protocol
use ea_share.Protocol.{Edge, opposite, Message, message, Json, write_message, MsgType, Button}
use ea_share.Mousesync.{Hmac, encode_packet}
use ea_share.Keys.{Name}
use ea_share.Capture.{Event, key, mouse_move, mouse_button, mouse_wheel, edge_crossed, hotkey_paste}
use ea_share.Controller.EdgeMath.{
  entry_position, release_rel_pos, controller_warp_position, pushes_past, has_moved_away, clamp_i,
}

-- `udpMouseClient`. Its socket holds the packets sent, and takes `room` more before a write fails.
pub record UdpClient : Type 0 where
  pub key : Bytes
  pub seq : ℕ
  pub packets : List Bytes
  pub room : ℕ

-- What the loop does apart from writing: calls of `src.Disengage` and starts of `handlePasteHotkey`,
-- with the engagement at that moment.
pub data Action : Type 0 where
  disengage : ℤ → ℤ → Action
  paste : Bool → Action

-- What stays fixed during the loop; `has_clip` is `clip != nil`.
pub record Session : Type 0 where
  pub edge : Edge
  pub target_w : ℤ
  pub target_h : ℤ
  pub bounds : Bounds
  pub has_clip : Bool

-- The variables of the loop, the connection that it writes to and the actions so far.
pub record Loop : Type 0 where
  pub conn : Writer
  pub udp : Option UdpClient
  pub engaged : Bool
  pub moved_away : Bool
  pub vx : ℤ
  pub vy : ℤ
  pub actions : List Action

-- `lost` is the return with "connection lost".
pub data Outcome : Type 0 where
  running : Loop → Outcome
  lost : Loop → Error → Outcome

abbrev pub loop_of : Outcome → Loop
loop_of (running l) = l
loop_of (lost l x) = l

-- `edge.Opposite()`: the edge of the target's screen through which the cursor enters.
abbrev pub entry_edge : Session → Edge
entry_edge c = opposite c.edge

module _ (fl : Float) (json : Json fl) (mac : Hmac) (c : Session) where
  -- `sendPosition`: the client afterwards, or `none` for a failed write.
  unfoldable pub send_position : ℤ → ℤ → UdpClient → Option UdpClient
  send_position x y u =
      let seq = (u.seq + 1) % 2 ^ 64 in
      if u.room == 0
      then none
      else some (record u {
        seq = seq;
        packets = u.packets ++ (encode_packet mac u.key (record { seq = seq; x = x; y = y }) ∷ []);
        room = u.room - 1;
      })

  finish_write : Loop → Writer × Option Error → Outcome
  finish_write l (w, none) = running (record l { conn = w })
  finish_write l (w, some x) = lost (record l { conn = w }) x

  unfoldable pub send_message : Message fl → Loop → Outcome
  unfolding finish_write
  send_message m l = finish_write l (write_message fl json l.conn m)

  -- The cases that only forward.
  unfoldable pub forward : Message fl → Loop → Outcome
  unfolding send_message
  forward m l = if l.engaged then send_message m l else running l

  unfoldable pub on_edge_crossed : fl.F → Loop → Outcome
  on_edge_crossed rel_pos l =
      let (x, y) = entry_position fl (entry_edge c) rel_pos c.target_w c.target_h in
      send_message (record (message fl MsgType.engage) { edge = c.edge; rel_pos = rel_pos })
        (record l { engaged = true; moved_away = false; vx = x; vy = y })

  send_delta : ℤ → ℤ → Loop → Outcome
  send_delta dx dy = send_message (record (message fl MsgType.mouse_move) { dx = dx; dy = dy })

  move_over : ℤ → ℤ → Loop → Option UdpClient → Outcome
  move_over dx dy l none = send_delta dx dy (record l { udp = none })
  move_over dx dy l (some u) = running (record l { udp = some u })

  -- Over UDP while that works, and over TCP from the first failure on.
  unfoldable pub send_move : ℤ → ℤ → Loop → Outcome
  unfolding send_delta move_over
  send_move dx dy l = elim l.udp [
    | none ↦ send_delta dx dy l
    | some u ↦ move_over dx dy l (send_position l.vx l.vy u)
  ]

  clamp_x : ℤ → ℤ
  clamp_x x = clamp_i x (pos 0) (sub32 c.target_w (pos 1))

  clamp_y : ℤ → ℤ
  clamp_y y = clamp_i y (pos 0) (sub32 c.target_h (pos 1))

  -- The move that hands control back.
  unfoldable pub hand_back : ℤ → ℤ → Loop → Loop
  unfolding clamp_x clamp_y
  hand_back nx ny l =
      let r = release_rel_pos fl (entry_edge c) (clamp_x nx) (clamp_y ny) c.target_w c.target_h in
      let (x, y) =
        controller_warp_position fl c.edge r c.bounds.x c.bounds.y c.bounds.w c.bounds.h in
      record l { engaged = false; actions = l.actions ++ (disengage x y ∷ []) }

  -- The simulated cursor after a move that stays on the target.
  unfoldable pub track : Bool → ℤ → ℤ → Loop → Loop
  unfolding clamp_x clamp_y
  track pushing_out nx ny l = record l {
    vx = clamp_x nx;
    vy = clamp_y ny;
    moved_away =
        if not pushing_out && not l.moved_away
        then has_moved_away (entry_edge c) (clamp_x nx) (clamp_y ny) c.target_w c.target_h
        else l.moved_away;
  }

  unfoldable pub on_mouse_move : ℤ → ℤ → Loop → Outcome
  on_mouse_move dx dy l =
      let nx = add32 l.vx dx in
      let ny = add32 l.vy dy in
      let pushing_out = pushes_past (entry_edge c) nx ny c.target_w c.target_h in
      if not l.engaged
      then running l
      else if l.moved_away && pushing_out
      then running (hand_back nx ny l)
      else send_move dx dy (track pushing_out nx ny l)

  unfoldable pub handle : Event fl → Loop → Outcome
  handle (edge_crossed rel_pos) l = on_edge_crossed rel_pos l
  handle (mouse_move dx dy) l = on_mouse_move dx dy l
  handle (key name down) l = forward (record (message fl MsgType.key) { key = name; down = down }) l
  handle (mouse_button b down) l =
      forward (record (message fl MsgType.mouse_button) { button = b; down = down }) l
  handle (mouse_wheel amount) l =
      forward (record (message fl MsgType.mouse_wheel) { amount = amount }) l
  handle hotkey_paste l =
      if c.has_clip
      then running (record l { actions = l.actions ++ (paste l.engaged ∷ []) })
      else running l

  -- The loop over the events that the source delivers.
  unfoldable pub run : List (Event fl) → Loop → Outcome
  run [] l = running l
  run (e ∷ es) l = elim (handle e l) [ running l' ↦ run es l' | lost l' x ↦ lost l' x ]
