-- ===== src/EdgeLink/Sync.antt =====
-- The source and the loop agree on who is in control.
use ea_share.Base.{
  ◌+◌, ◌≤◌, ◌≡◌, refl, ap, Bool, true, false, List, [], ◌∷◌, ◌++◌, arith, length, drop, drop-append,
  ℤ, add32, inl, inr, Bool-cases, ◌&&◌, ◌⊎◌,
}
use ea_share.Float.{Float}
use ea_share.Stream.{Error}
use ea_share.Protocol.{Json, message, MsgType}
use ea_share.Mousesync.{Hmac}
use ea_share.Capture.{Event, key, mouse_move, mouse_button, mouse_wheel, edge_crossed, hotkey_paste}
use ea_share.Capture.Windows.{Source, release}
use ea_share.Controller.EdgeMath.{pushes_past, entry_position}
use ea_share.Controller.EdgeLoop.{
  Session, Loop, Outcome, running, lost, loop_of, Action, disengage, paste, entry_edge, handle,
  on_mouse_move, hand_back, track, on_edge_crossed,
}
use ea_share.Controller.EdgeLoop.Engagement.{
  SameCursor, forward-SameCursor, send_message-SameCursor, send_move-SameCursor,
}
use ea_share.EdgeLink.{
  World, perform, settle, Step, on_key, on_mouse, on_raw_input, on_event, Reach, here, next, Rounds,
  round,
}
use ea_share.EdgeLink.Hooks.{
  crossings, crossings-append, count, keyboard_proc-IsBalanced, mouse_proc-IsBalanced,
  handle_raw_input-IsBalanced,
}

-- The source suppresses input exactly while the loop is engaged or one crossing waits for it.
abbrev pub InSync : {fl : Float} → World fl → Type 0
InSync w = crossings w.source.events + count w.loop.engaged ≡ count w.source.engaged

drop_all {ℓ} : {A : Type ℓ} (xs : List A) → drop (length xs) xs ≡ []
drop_all [] = refl
drop_all (x ∷ xs) = drop_all xs

count-le : (b : Bool) → count b ≤ 1
count-le false = omega arith
count-le true = omega arith

module _ {fl : Float} (json : Json fl) (mac : Hmac) (c : Session) where
  settle-same : (l m : Loop) (s : Source fl) → m.actions ≡ l.actions → settle l m s ≡ s
  unfolding settle
  settle-same l m s e = rw (e, drop_all l.actions) refl

  settle-new :
      (l m : Loop) (a : Action) (s : Source fl)
      → m.actions ≡ l.actions ++ (a ∷ [])
      → settle l m s ≡ perform (a ∷ []) s
  unfolding settle
  settle-new l m a s e = rw (e, drop-append l.actions (a ∷ [])) refl

  -- A round takes an event off the channel and keeps the balance.
  abbrev Kept : Event fl → Loop → Loop → Source fl → Type 0
  Kept e l m s =
      crossings (e ∷ []) + count l.engaged + crossings s.events ≡ count s.engaged
      → crossings (settle l m s).events + count m.engaged ≡ count (settle l m s).engaged

  Kept-same :
      (e : Event fl) (l m : Loop) (s : Source fl)
      → crossings (e ∷ []) ≡ 0
      → SameCursor l m
      → Kept e l m s
  Kept-same e l m s q k h = rw (settle-same l m s k.actions) (omega (arith, ap count k.engaged))

  hand_back-actions :
      (nx ny : ℤ) (l : Loop)
      → (x : ℤ) × (y : ℤ) × ((hand_back fl json mac c nx ny l).actions
          ≡ l.actions ++ (disengage x y ∷ []))
  unfolding hand_back
  hand_back-actions nx ny l = (_, _, refl)

  hand_back-engaged : (nx ny : ℤ) (l : Loop) → (hand_back fl json mac c nx ny l).engaged ≡ false
  unfolding hand_back
  hand_back-engaged nx ny l = refl

  move_cases :
      (dx dy : ℤ) (l : Loop)
      → let m = loop_of (on_mouse_move fl json mac c dx dy l) in
        ((m.engaged ≡ l.engaged) × (m.actions ≡ l.actions))
        ⊎ ((x : ℤ) × (y : ℤ) × (l.engaged ≡ true)
            × (m.engaged ≡ false)
            × (m.actions ≡ l.actions ++ (disengage x y ∷ [])))
  unfolding on_mouse_move track
  move_cases dx dy l =
      let nx = add32 l.vx dx in
      let ny = add32 l.vy dy in
      let out = pushes_past (entry_edge c) nx ny c.target_w c.target_h in
      let k = send_move-SameCursor fl json mac c dx dy (track fl json mac c out nx ny l) in
      elim (Bool-cases l.engaged) [
        | inl on ↦ elim (Bool-cases (l.moved_away && out)) [
          | inl back ↦
              let (x, y, a) = hand_back-actions nx ny l in
              inr (x, y, on, ground (arith, hand_back-engaged nx ny l), ground arith)
          | inr stay ↦ inl (ground arith, ground arith)
        ]
        | inr off ↦ inl (ground arith, ground arith)
      ]

  handle-Kept :
      (e : Event fl) (l : Loop) (s : Source fl) → Kept e l (loop_of (handle fl json mac c e l)) s
  unfolding handle on_edge_crossed
  handle-Kept (key n d) l s h =
      Kept-same (key n d) l _ s refl (forward-SameCursor fl json mac c _ l) h
  handle-Kept (mouse_button b d) l s h =
      Kept-same (mouse_button b d) l _ s refl (forward-SameCursor fl json mac c _ l) h
  handle-Kept (mouse_wheel a) l s h =
      Kept-same (mouse_wheel a) l _ s refl (forward-SameCursor fl json mac c _ l) h
  handle-Kept (edge_crossed r) l s h =
      let (x, y) = entry_position fl (entry_edge c) r c.target_w c.target_h in
      let k =
        send_message-SameCursor fl json mac c
          (record (message fl MsgType.engage) { edge = c.edge; rel_pos = r })
          (record l { engaged = true; moved_away = false; vx = x; vy = y }) in
      rw (settle-same l (loop_of (on_edge_crossed fl json mac c r l)) s k.actions)
        (omega (arith, ap count k.engaged, count-le s.engaged))
  handle-Kept (mouse_move dx dy) l s h = elim (move_cases dx dy l) [
    | inl (g, a) ↦
        rw (settle-same l (loop_of (on_mouse_move fl json mac c dx dy l)) s a)
          (omega (arith, ap count g))
    | inr (x, y, on, off, a) ↦
        rw (settle-new l (loop_of (on_mouse_move fl json mac c dx dy l)) (disengage x y) s a)
          (unfold release in omega (arith, ap count on, ap count off, count-le s.engaged))
  ]
  handle-Kept hotkey_paste l s h = elim (Bool-cases c.has_clip) [
    | inl clip ↦ rw clip (
        rw
          (settle-new l (record l { actions = l.actions ++ (paste l.engaged ∷ []) })
            (paste l.engaged) s refl)
          (omega arith))
    | inr bare ↦ rw bare (rw (settle-same l l s refl) (omega arith))
  ]

  Step-InSync : {v w : World fl} → Step fl json mac c v w → InSync v → InSync w
  Step-InSync (on_key {w = w} n_code w_param vk_code flags room) h =
      omega (arith, keyboard_proc-IsBalanced n_code w_param vk_code flags w.source)
  Step-InSync (on_mouse {w = w} n_code w_param pt mouse_data flags room) h =
      omega (arith, mouse_proc-IsBalanced n_code w_param pt mouse_data flags w.source room)
  Step-InSync (on_raw_input {w = w} r room) h =
      omega (arith, handle_raw_input-IsBalanced r w.source)
  Step-InSync (on_event {w = w} {e = e} {es = es} {l = l} front q) h =
      let s = record w.source { events = es } in
      let kept = rw q at (handle-Kept e w.loop s) in
      kept (omega (arith, h, ap crossings front, crossings-append (e ∷ []) es))

  Reach-InSync : {v w : World fl} → Reach fl json mac c v w → InSync v → InSync w
  Reach-InSync here h = h
  Reach-InSync (next r s) h = Step-InSync s (Reach-InSync r h)

  -- From a start with nobody engaged and an empty channel, in any order of hook calls, while the channel
  -- has room, and rounds of the loop: the source suppresses input exactly while the loop is engaged or
  -- one crossing waits for it, and never both.
  pub reached-InSync :
      {v w : World fl}
      → v.source.engaged ≡ false
      → v.loop.engaged ≡ false
      → v.source.events ≡ []
      → Reach fl json mac c v w
      → InSync w
  reached-InSync idle rest empty r =
      Reach-InSync r (omega (arith, ap count idle, ap count rest, ap crossings empty))

  perform-events : (actions : List Action) (s : Source fl) → (perform actions s).events ≡ s.events
  unfolding release
  perform-events [] s = refl
  perform-events (disengage x y ∷ actions) s = perform-events actions (release s)
  perform-events (paste engaged ∷ actions) s = perform-events actions s

  settle-events : (l m : Loop) (s : Source fl) → (settle l m s).events ≡ s.events
  unfolding settle
  settle-events l m s = perform-events (drop (length l.actions) m.actions) s

  -- The next round would lose the connection.
  abbrev pub IsLosing : World fl → Type 0
  IsLosing w =
      (e : Event fl) × (es : List (Event fl)) × (m : Loop) × (x : Error) × (w.source.events
        ≡ e ∷ es)
      × (handle fl json mac c e w.loop ≡ lost m x)

  abbrev pub IsAgreed : World fl → Type 0
  IsAgreed w = (w.source.events ≡ []) × (w.loop.engaged ≡ w.source.engaged)

  agreed : (w : World fl) → w.source.events ≡ [] → InSync w → w.loop.engaged ≡ w.source.engaged
  agreed w empty h = ground (arith, ap crossings empty)

  drain :
      {v : World fl} (es : List (Event fl)) (w : World fl)
      → w.source.events ≡ es
      → Rounds fl json mac c v w
      → InSync w
      → (u : World fl) × Rounds fl json mac c v u × (IsAgreed u ⊎ IsLosing u)
  drain [] w q r h = (w, r, inl (q, agreed w q h))
  drain {v = v} (e ∷ es) w q r h = after (handle fl json mac c e w.loop) refl (drain es)
    where
      after :
          (o : Outcome)
          → handle fl json mac c e w.loop ≡ o
          → ((u : World fl)
              → u.source.events ≡ es
              → Rounds fl json mac c v u
              → InSync u
              → (t : World fl) × Rounds fl json mac c v t × (IsAgreed t ⊎ IsLosing t))
          → (u : World fl) × Rounds fl json mac c v u × (IsAgreed u ⊎ IsLosing u)
      after (lost m x) g rest = (w, r, inr (e, es, m, x, q, g))
      after (running m) g rest =
          let s = on_event q g in
          rest (record { source = settle w.loop m (record w.source { events = es }); loop = m })
            (settle-events w.loop m (record w.source { events = es })) (round r q g)
            (Step-InSync s h)

  -- From every such world the rounds of the loop alone, without any call of a hook, empty the channel, and
  -- then source and loop agree on who is in control, unless they come to a write that loses the connection.
  pub reached_agrees :
      {v w : World fl}
      → v.source.engaged ≡ false
      → v.loop.engaged ≡ false
      → v.source.events ≡ []
      → Reach fl json mac c v w
      → (u : World fl) × Rounds fl json mac c w u × (IsAgreed u ⊎ IsLosing u)
  reached_agrees {w = w} idle rest empty r =
      drain w.source.events w refl Rounds.idle (reached-InSync idle rest empty r)
