-- ===== src/Controller/EdgeLoop/Engagement.antt =====
-- When the loop forwards, and when it hands control back.
use ea_share.Base.{◌≡◌, refl, true, false, none, List, [], ◌∷◌, arith, ℤ, add32, ◌⊎◌, inl, inr}
use ea_share.Float.{Float}
use ea_share.Stream.{Error}
use ea_share.Protocol.{Json, Message, message, MsgType}
use ea_share.Mousesync.{Hmac}
use ea_share.Capture.{Event, key, mouse_move, mouse_button, mouse_wheel, edge_crossed, hotkey_paste}
use ea_share.Controller.EdgeMath.{pushes_past, has_moved_away, entry_position}
use ea_share.Controller.EdgeLoop.{
  Session, Loop, Outcome, running, lost, loop_of, entry_edge, handle, on_mouse_move, hand_back,
  track, forward, send_message, send_move, on_edge_crossed, run,
}

-- Any event but a crossing.
abbrev pub IsOther : {fl : Float} → Event fl → Type 0
IsOther (edge_crossed r) = ⊥
IsOther (key n d) = Unit {0}
IsOther (mouse_move x y) = Unit {0}
IsOther (mouse_button b d) = Unit {0}
IsOther (mouse_wheel a) = Unit {0}
IsOther hotkey_paste = Unit {0}

abbrev pub AllOther : {fl : Float} → List (Event fl) → Type 0
AllOther [] = Unit {0}
AllOther (e ∷ es) = IsOther e × AllOther es

-- What sending a message or a move leaves alone.
pub record SameCursor (l l' : Loop) : Type 0 where
  pub engaged : l'.engaged ≡ l.engaged
  pub moved_away : l'.moved_away ≡ l.moved_away
  pub vx : l'.vx ≡ l.vx
  pub vy : l'.vy ≡ l.vy
  pub actions : l'.actions ≡ l.actions

-- Engaged, and not yet off the entry edge.
abbrev StillAtEdge : Loop → Type 0
StillAtEdge l = (l.engaged ≡ true) × (l.moved_away ≡ false)

-- The simulated cursor is strictly off the entry edge.
abbrev pub OffEntryEdge : Session → Loop → Type 0
OffEntryEdge c l = has_moved_away (entry_edge c) l.vx l.vy c.target_w c.target_h ≡ true

-- The states that a run goes through.
pub data Visited (fl : Float) (json : Json fl) (mac : Hmac) (c : Session)
    : List (Event fl) → Loop → Loop → Type 0 where
  here : {es : List (Event fl)} {l : Loop} → Visited fl json mac c es l l
  later :
      {e : Event fl} {es : List (Event fl)} {l m n : Loop}
      → handle fl json mac c e l ≡ running m
      → Visited fl json mac c es m n
      → Visited fl json mac c (e ∷ es) l n
  stop :
      {e : Event fl} {es : List (Event fl)} {l m : Loop} {x : Error}
      → handle fl json mac c e l ≡ lost m x
      → Visited fl json mac c (e ∷ es) l m

module _ (fl : Float) (json : Json fl) (mac : Hmac) (c : Session) where
  handle_idle :
      (e : Event fl) (l : Loop)
      → l.engaged ≡ false
      → IsOther e
      → (l' : Loop) × (handle fl json mac c e l ≡ running l')
        × (l'.conn ≡ l.conn)
        × (l'.udp ≡ l.udp)
        × (l'.engaged ≡ false)
  unfolding handle forward on_mouse_move
  handle_idle (edge_crossed r) l idle h = absurd h
  handle_idle (key n d) l idle h = (l, ground arith, refl, refl, idle)
  handle_idle (mouse_move x y) l idle h = (l, ground arith, refl, refl, idle)
  handle_idle (mouse_button b d) l idle h = (l, ground arith, refl, refl, idle)
  handle_idle (mouse_wheel a) l idle h = (l, ground arith, refl, refl, idle)
  handle_idle hotkey_paste l idle h = (
    loop_of (handle fl json mac c hotkey_paste l),
    ground arith,
    ground arith,
    ground arith,
    ground arith,
  )

  -- While the controller is not engaged, no sequence of events without a crossing makes it write
  -- anything, on either channel: it stays connected, and stays disengaged.
  pub run_idle :
      (es : List (Event fl)) (l : Loop)
      → l.engaged ≡ false
      → AllOther es
      → (l' : Loop) × (run fl json mac c es l ≡ running l')
        × (l'.conn ≡ l.conn)
        × (l'.udp ≡ l.udp)
        × (l'.engaged ≡ false)
  unfolding run
  run_idle [] l idle h = (l, refl, refl, refl, idle)
  run_idle (e ∷ es) l idle (h, hs) =
      let (m, r, cm, um, im) = handle_idle e l idle h in
      let (n, q, cn, un, dn) = run_idle es m im hs in (n, rw (r, run) q, cc, cc, dn)

  pub send_message-SameCursor :
      (m : Message fl) (l : Loop) → SameCursor l (loop_of (send_message fl json mac c m l))
  unfolding send_message
  send_message-SameCursor m l = ground arith

  pub forward-SameCursor :
      (m : Message fl) (l : Loop) → SameCursor l (loop_of (forward fl json mac c m l))
  unfolding forward
  forward-SameCursor m l = ground (arith, send_message-SameCursor m l)

  pub send_move-SameCursor :
      (dx dy : ℤ) (l : Loop) → SameCursor l (loop_of (send_move fl json mac c dx dy l))
  unfolding send_move
  send_move-SameCursor dx dy l = ground (
    arith,
    send_message-SameCursor (record (message fl MsgType.mouse_move) { dx = dx; dy = dy }) l,
    send_message-SameCursor (record (message fl MsgType.mouse_move) { dx = dx; dy = dy })
        (record l { udp = none }),
  )

  -- Control is handed back only by a move that pushes out through the entry edge after the simulated
  -- cursor had been off that edge: then the source is told to disengage, once, and that move is not sent.
  pub on_mouse_move_release :
      (dx dy : ℤ) (l : Loop)
      → l.engaged ≡ true
      → (loop_of (on_mouse_move fl json mac c dx dy l)).engaged ≡ false
      → (l.moved_away ≡ true)
        × (pushes_past (entry_edge c) (add32 l.vx dx) (add32 l.vy dy) c.target_w c.target_h ≡ true)
        × (on_mouse_move fl json mac c dx dy l
            ≡ running (hand_back fl json mac c (add32 l.vx dx) (add32 l.vy dy) l))
  unfolding on_mouse_move track
  on_mouse_move_release dx dy l on off =
      let nx = add32 l.vx dx in
      let ny = add32 l.vy dy in
      let out = pushes_past (entry_edge c) nx ny c.target_w c.target_h in
      ground (arith, send_move-SameCursor dx dy (track fl json mac c out nx ny l))

  move_before_away :
      (dx dy : ℤ) (l : Loop)
      → l.engaged ≡ true
      → l.moved_away ≡ false
      → StillAtEdge (loop_of (on_mouse_move fl json mac c dx dy l))
        ⊎ OffEntryEdge c (loop_of (on_mouse_move fl json mac c dx dy l))
  unfolding on_mouse_move track
  move_before_away dx dy l on fresh =
      let nx = add32 l.vx dx in
      let ny = add32 l.vy dy in
      let out = pushes_past (entry_edge c) nx ny c.target_w c.target_h in
      ground (arith, send_move-SameCursor dx dy (track fl json mac c out nx ny l))

  handle_before_away :
      (e : Event fl) (l : Loop)
      → l.engaged ≡ true
      → l.moved_away ≡ false
      → StillAtEdge (loop_of (handle fl json mac c e l))
        ⊎ OffEntryEdge c (loop_of (handle fl json mac c e l))
  unfolding handle forward on_edge_crossed
  handle_before_away (mouse_move dx dy) l on fresh = move_before_away dx dy l on fresh
  handle_before_away (edge_crossed r) l on fresh =
      let (x, y) = entry_position fl (entry_edge c) r c.target_w c.target_h in
      let k =
        send_message-SameCursor (record (message fl MsgType.engage) { edge = c.edge; rel_pos = r })
          (record l { engaged = true; moved_away = false; vx = x; vy = y }) in
      inl (k.engaged, k.moved_away)
  handle_before_away (key n d) l on fresh =
      let k = send_message-SameCursor (record (message fl MsgType.key) { key = n; down = d }) l in
      inl (ground arith, ground arith)
  handle_before_away (mouse_button b d) l on fresh =
      let k =
        send_message-SameCursor (record (message fl MsgType.mouse_button) { button = b; down = d })
          l in
      inl (ground arith, ground arith)
  handle_before_away (mouse_wheel a) l on fresh =
      let k = send_message-SameCursor (record (message fl MsgType.mouse_wheel) { amount = a }) l in
      inl (ground arith, ground arith)
  handle_before_away hotkey_paste l on fresh = inl (ground arith, ground arith)

  -- Whatever events follow a crossing, control is handed back only after the simulated cursor has been
  -- strictly off the entry edge at some point of the run.
  pub run_release_after_away :
      (es : List (Event fl)) (l : Loop)
      → l.engaged ≡ true
      → l.moved_away ≡ false
      → (loop_of (run fl json mac c es l)).engaged ≡ false
      → (m : Loop) × Visited fl json mac c es l m × OffEntryEdge c m
  unfolding run
  run_release_after_away [] l on fresh off = absurd (ground arith)
  run_release_after_away (e ∷ es) l on fresh off =
      after (handle fl json mac c e l) refl (handle_before_away e l on fresh)
        (run_release_after_away es)
    where
      after :
          (o : Outcome)
          → handle fl json mac c e l ≡ o
          → StillAtEdge (loop_of (handle fl json mac c e l))
            ⊎ OffEntryEdge c (loop_of (handle fl json mac c e l))
          → ((m : Loop)
              → m.engaged ≡ true
              → m.moved_away ≡ false
              → (loop_of (run fl json mac c es m)).engaged ≡ false
              → (n : Loop) × Visited fl json mac c es m n × OffEntryEdge c n)
          → (m : Loop) × Visited fl json mac c (e ∷ es) l m × OffEntryEdge c m
      after (running m) q (inl still) rest =
          let at : StillAtEdge m = rw q at still in
          let (n, v, a) = rest m at.0 at.1 (rw (q, run) at off) in (n, Visited.later q v, a)
      after (running m) q (inr away) rest = (m, Visited.later q Visited.here, rw q at away)
      after (lost m x) q (inl still) rest =
          let at : StillAtEdge m = rw q at still in
          let gone : m.engaged ≡ false = rw (q, run) at off in absurd (ground arith)
      after (lost m x) q (inr away) rest = (m, Visited.stop q, rw q at away)
