-- ===== src/EdgeServeLink.antt =====
-- Both ends of a connection with edge switching and no UDP channel: the loop of `runEdgeAware` in
-- cmd/controller/edge_windows.go, and the loop of `handleConn` of cmd/target/main.go.
use ea_share.Base.{
  ◌+◌, ◌≤◌, ◌≡◌, refl, sym, ap, ◌∙◌, Bool, Option, none, some, List, [], ◌∷◌, ◌++◌, arith, Bytes,
  length, All, append_assoc, append-nil, if◌then◌else◌,
}
use ea_share.Float.{Float}
use ea_share.Stream.{Writer, eof}
use ea_share.Capture.{Event, key, mouse_move, mouse_button, mouse_wheel, edge_crossed, hotkey_paste}
use ea_share.Mousesync.{Hmac}
use ea_share.Protocol.{Button, Message, message, MsgType, Json, max_message_size}
use ea_share.Protocol.Framing.{frame}
use ea_share.Controller.EdgeLoop.Writing.{
  message_at, framed, quiet, quiet-conn, quiet-udp, handle-quiet, send_message-fits,
}
use ea_share.Controller.EdgeLoop.{Session, Loop, running, loop_of, hand_back, track, handle, run}
use ea_share.Controller.Legacy.{captured}
use ea_share.Target.Dispatch.{Injection, dispatch, engage}
use ea_share.Target.Conn.{Setup, State, serve}
use ea_share.Target.Conn.Service.{
  IsEncoded, stream, messages, injected, injected_all, serve-stream, length-frame,
}
use ea_share.SessionLink.{direct, empty}

module _ (fl : Float) (json : Json fl) (mac : Hmac) (c : Session) where
  -- The events from a state of the loop on, and the message and body of each that is sent: both sides agree on
  -- the body, which is within the limit.
  pub data Encodes : List (Event fl) → Loop → List (Message fl × Bytes) → Type 0 where
    done : {l : Loop} → Encodes [] l []
    skip :
        {e : Event fl} {es : List (Event fl)} {l : Loop} {xs : List (Message fl × Bytes)}
        → message_at fl json mac c e l ≡ none
        → Encodes es (loop_of (handle fl json mac c e l)) xs
        → Encodes (e ∷ es) l xs
    put :
        {e : Event fl} {es : List (Event fl)} {l : Loop} {xs : List (Message fl × Bytes)}
        {m : Message fl} {body : Bytes}
        → message_at fl json mac c e l ≡ some m
        → json.marshal m ≡ some body
        → json.unmarshal body ≡ some m
        → length body ≤ max_message_size
        → Encodes es (loop_of (handle fl json mac c e l)) xs
        → Encodes (e ∷ es) l ((m, body) ∷ xs)

  -- What the target should inject for an event after which the loop stands at `l`: the cursor where the loop
  -- simulates it after a crossing, and any other input after which the loop is engaged.
  abbrev pub effect : Event fl → Loop → List Injection
  effect (edge_crossed r) l = Injection.warp_cursor l.vx l.vy ∷ []
  effect (key n d) l = if l.engaged then direct {fl = fl} (captured (key n d)) else []
  effect (mouse_move dx dy) l =
      if l.engaged then direct {fl = fl} (captured (mouse_move dx dy)) else []
  effect (mouse_button b d) l =
      if l.engaged then direct {fl = fl} (captured (mouse_button b d)) else []
  effect (mouse_wheel a) l = if l.engaged then direct {fl = fl} (captured (mouse_wheel a)) else []
  effect hotkey_paste l = []

  abbrev pub effects : List (Event fl) → Loop → List Injection
  effects [] l = []
  effects (e ∷ es) l = let l' = loop_of (handle fl json mac c e l) in effect e l' ++ effects es l'

  module _ (t : Setup) (wide : t.own_w ≡ c.target_w) (high : t.own_h ≡ c.target_h) where
    injected_at : Option (Message fl) → List Injection
    injected_at none = []
    injected_at (some m) = injected fl json t m

    injected_button :
        (b : Button) (down : Bool)
        → injected fl json t (record (message fl MsgType.mouse_button) { button = b; down = down })
          ≡ direct {fl = fl} (captured (mouse_button b down))
    unfolding dispatch
    injected_button Button.left down = refl
    injected_button Button.right down = refl
    injected_button Button.middle down = refl
    injected_button (Button.other s) down = refl

    injected-effect :
        (e : Event fl) (l : Loop)
        → injected_at (message_at fl json mac c e l) ≡ effect e (quiet fl json mac c e l)
    unfolding injected_at message_at quiet dispatch hand_back track engage
    injected-effect (edge_crossed r) l = rw (wide, high) refl
    injected-effect (mouse_move dx dy) l = ground arith
    injected-effect (key n d) l = ground arith
    injected-effect (mouse_button b d) l = ground (arith, injected_button b d)
    injected-effect (mouse_wheel a) l = ground arith
    injected-effect hotkey_paste l = refl

    effect-conn :
        (e : Event fl) (l : Loop) (w : Writer) → effect e (record l { conn = w }) ≡ effect e l
    effect-conn (edge_crossed r) l w = refl
    effect-conn (mouse_move dx dy) l w = refl
    effect-conn (key n d) l w = refl
    effect-conn (mouse_button b d) l w = refl
    effect-conn (mouse_wheel a) l w = refl
    effect-conn hotkey_paste l w = refl

    handle-none :
        (e : Event fl) (l : Loop)
        → l.udp ≡ none
        → message_at fl json mac c e l ≡ none
        → let q = quiet fl json mac c e l in
          (handle fl json mac c e l ≡ running q) × (effect e q ≡ [])
    unfolding injected_at
    handle-none e l u n =
        (rw n at (handle-quiet fl json mac c e l u), sym (rw n at (injected-effect e l)))

    -- The loop after a message.
    after : Event fl → Bytes → Loop → Loop
    after e body l = record (quiet fl json mac c e l) { conn = framed fl json mac c body l.conn }

    handle-some :
        (e : Event fl) (l : Loop) (m : Message fl) (body : Bytes)
        → l.udp ≡ none
        → message_at fl json mac c e l ≡ some m
        → json.marshal m ≡ some body
        → length body ≤ max_message_size
        → length body + 4 ≤ l.conn.room
        → (handle fl json mac c e l ≡ running (after e body l))
          × (effect e (after e body l) ≡ injected fl json t m)
    unfolding injected_at after
    handle-some e l m body u n k small room =
        let q = quiet fl json mac c e l in
        let same = quiet-conn fl json mac c e l in
        let called = rw n at (handle-quiet fl json mac c e l u) in
        let fits = send_message-fits fl json mac c m body q k small (rw (same) room) in
        (
          called ∙ fits ∙ ap (λ w. running (record q { conn = framed fl json mac c body w })) same,
          effect-conn e q (framed fl json mac c body l.conn) ∙ sym (rw n at (injected-effect e l)),
        )

    pub All-IsEncoded :
        {es : List (Event fl)} {l : Loop} {xs : List (Message fl × Bytes)}
        → Encodes es l xs
        → All (IsEncoded fl json t) xs
    All-IsEncoded done = tt
    All-IsEncoded (skip e k) = All-IsEncoded k
    All-IsEncoded (put e a b l k) = ((b, l), All-IsEncoded k)

    run-step :
        (e : Event fl) (es : List (Event fl)) (l l' : Loop)
        → handle fl json mac c e l ≡ running l'
        → run fl json mac c (e ∷ es) l ≡ run fl json mac c es l'
    unfolding run
    run-step e es l l' h = rw (h, run) refl

    pub run-stream :
        {es : List (Event fl)} {xs : List (Message fl × Bytes)} (l : Loop)
        → Encodes es l xs
        → l.udp ≡ none
        → length (stream fl json t xs) ≤ l.conn.room
        → (l' : Loop) × (run fl json mac c es l ≡ running l')
          × (l'.conn.sent ≡ l.conn.sent ++ stream fl json t xs)
          × (injected_all fl json t (messages fl json t xs) ≡ effects es l)
    unfolding run after
    run-stream l done u room = (l, refl, sym (append-nil l.conn.sent), refl)
    run-stream l (skip {e = e} {es = es} {xs = xs} n k) u room =
        let (ran, quieted) = handle-none e l u n in
        let l' = loop_of (handle fl json mac c e l) in
        let same : l' ≡ quiet fl json mac c e l = ap loop_of ran in
        let conn : l'.conn ≡ l.conn = ap (λ x. x.conn) same ∙ quiet-conn fl json mac c e l in
        let udp : l'.udp ≡ none = ap (λ x. x.udp) same ∙ quiet-udp fl json mac c e l ∙ u in
        let (last, ended, sent, calls) =
          run-stream l' k udp (omega (arith, ap (λ w. w.room) conn)) in
        (
          last,
          run-step e es l l' (ran ∙ ap running (sym same)) ∙ ended,
          sent ∙ ap (λ w. w.sent ++ stream fl json t xs) conn,
          calls ∙ sym (ap (λ i. i ++ effects es l') (ap (effect e) same ∙ quieted)),
        )
    run-stream l (put {e = e} {es = es} {xs = xs} {m = m} {body = body} n a b s k) u room =
        let rest = stream fl json t xs in
        let len = length-frame body rest in
        let (ran, called) = handle-some e l m body u n a s (omega (arith, len)) in
        let l' = loop_of (handle fl json mac c e l) in
        let same : l' ≡ after e body l = ap loop_of ran in
        let conn : l'.conn ≡ framed fl json mac c body l.conn = ap (λ x. x.conn) same in
        let udp : l'.udp ≡ none = ap (λ x. x.udp) same ∙ quiet-udp fl json mac c e l ∙ u in
        let (last, ended, sent, calls) =
          run-stream l' k udp (omega (arith, len, ap (λ w. w.room) conn)) in
        (
          last,
          run-step e es l l' (ran ∙ ap running (sym same)) ∙ ended,
          sent ∙ ap (λ w. w.sent ++ rest) conn ∙ append_assoc l.conn.sent (frame body) rest,
          ap (λ i. injected fl json t m ++ i) calls
              ∙ sym (ap (λ i. i ++ effects es l') (ap (effect e) same ∙ called)),
        )

    -- A controller that shares at an edge, without a UDP channel, over a fresh connection with room for its
    -- frames; the target's screen has the size that the controller was told, and both sides agree on the body
    -- of each message, which is within the limit. Then the loop takes every event, and what it has sent, served
    -- to its end, makes the target do exactly this: after each crossing put its cursor where the controller
    -- simulates it, and inject each other input after which the loop is engaged, once and in order, the move
    -- that hands control back and all input while it is not engaged left out.
    pub run-serve :
        {es : List (Event fl)} {xs : List (Message fl × Bytes)} (l : Loop) (s : State)
        → Encodes es l xs
        → l.udp ≡ none
        → l.conn.sent ≡ []
        → length (stream fl json t xs) ≤ l.conn.room
        → (l' : Loop) × (run fl json mac c es l ≡ running l')
          × ((serve fl json t (length l'.conn.sent) l'.conn.sent s).calls ≡ s.calls ++ effects es l)
    run-serve {es} {xs} l s k u start room =
        let bytes = stream fl json t xs in
        let (l', ran, sent, calls) = run-stream l k u room in
        let full = append-nil bytes in
        let served =
          serve-stream fl json t xs [] eof (length bytes) s (All-IsEncoded k) (empty fl json)
            (omega (arith, ap length full)) in
        let wire : l'.conn.sent ≡ bytes = sent ∙ ap (λ b. b ++ bytes) start in
        (l', ran, rw (wire) (rw full at (rw calls at served)))
