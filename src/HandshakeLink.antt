-- ===== src/HandshakeLink.antt =====
-- Both ends of the handshake: `handleConn` of cmd/target/main.go, and the controller's side in
-- cmd/controller/main.go and edge_windows.go.
use ea_share.Base.{
  ℕ, ◌+◌, ◌-◌, ◌≤◌, ◌≡◌, refl, sym, ap, ◌∙◌, Bool, true, none, some, [], if◌then◌else◌, ◌++◌, arith,
  Bytes, length, append_assoc, append-nil, pos, ◌<ℤ◌,
}
use ea_share.Float.{Float}
use ea_share.Stream.{Writer}
use ea_share.Protocol.{Message, message, MsgType, Json, max_message_size}
use ea_share.Protocol.Framing.{write_message_fits, read_message-frame, frame}
use ea_share.Target.Udp.{start}
use ea_share.Target.Conn.{Setup, State, reply, greet, enable_udp_mouse, handle_conn}
use ea_share.Target.Conn.Replies.{serve_session-conn, accepts-auth, handle_conn-accepted}
use ea_share.Controller.Handshake.{
  Network, authenticated, authenticate, read_auth, started, start_edge, negotiate_udp_mouse,
  auth_message,
}

-- The bytes of a message that both sides agree on.
abbrev pub IsBody : (fl : Float) → Json fl → Message fl → Bytes → Type 0
IsBody fl json m body =
    (json.marshal m ≡ some body) × (json.unmarshal body ≡ some m) × (length body ≤ max_message_size)

module _ (fl : Float) (json : Json fl) (c : Setup) where
  abbrev pub screen_info : Message fl
  screen_info = record (message fl MsgType.screen_info) { width = c.own_w; height = c.own_h }

  abbrev pub udp_key_message : Bytes → Message fl
  udp_key_message key = record (message fl MsgType.udp_key) { udp_key = c.base64 key }

  -- The connection after a frame.
  abbrev pub appended : State → Bytes → State
  appended s body = record s {
    conn = record { sent = s.conn.sent ++ frame body; room = s.conn.room - (length body + 4) };
  }

  reply-fits :
      (m : Message fl) (body : Bytes) (s : State)
      → IsBody fl json m body
      → length body + 4 ≤ s.conn.room
      → reply fl json c m s ≡ (appended s body, none)
  unfolding reply
  reply-fits m body s (e, d, l) room = rw (write_message_fits fl json s.conn m body e l room) refl

  pub greet-fits :
      (hello info : Bytes) (s : State)
      → IsBody fl json (message fl MsgType.auth_ok) hello
      → IsBody fl json screen_info info
      → length hello + length info + 8 ≤ s.conn.room
      → greet fl json c s ≡ (appended (appended s hello) info, none)
  unfolding greet
  greet-fits hello info s h i room =
      let first = reply-fits (message fl MsgType.auth_ok) hello s h (omega arith) in
      rw (first, greet)
        (rw (first) (reply-fits screen_info info (appended s hello) i (omega arith)))

  enable_udp_mouse-fits :
      (key body : Bytes) (s : State)
      → c.fresh_key ≡ some key
      → IsBody fl json (udp_key_message key) body
      → length body + 4 ≤ s.conn.room
      → enable_udp_mouse fl json c s ≡ (appended (record s { udp = start key s.udp }) body, true)
  unfolding enable_udp_mouse
  enable_udp_mouse-fits key body s fresh b room =
      let sent =
        reply-fits (udp_key_message key) body (record s { udp = start key s.udp }) b room in
      rw (fresh, enable_udp_mouse, sent) (rw (sent) refl)

  -- What the controller makes of the bytes that follow its own message.
  pub read_auth-frame :
      (hello rest : Bytes)
      → IsBody fl json (message fl MsgType.auth_ok) hello
      → read_auth fl json (frame hello ++ rest) ≡ authenticated rest
  unfolding read_auth
  read_auth-frame hello rest (e, d, l) =
      rw (read_message-frame fl json (message fl MsgType.auth_ok) hello rest d l, read_auth) refl

  authenticate-frame :
      (token : Bytes) (udp_mouse : Bool) (auth hello rest : Bytes) (w : Writer)
      → IsBody fl json (auth_message fl json token udp_mouse) auth
      → IsBody fl json (message fl MsgType.auth_ok) hello
      → length auth + 4 ≤ w.room
      → (authenticate fl json token udp_mouse w (frame hello ++ rest)).1 ≡ authenticated rest
  unfolding authenticate
  authenticate-frame token udp_mouse auth hello rest w (ae, ad, al) h room =
      rw
        (
          write_message_fits fl json w (auth_message fl json token udp_mouse) auth ae al room,
          authenticate,
        )
        (read_auth-frame hello rest h)

  negotiate-frame :
      (n : Network) (key body rest : Bytes) (k : ℕ)
      → IsBody fl json (udp_key_message key) body
      → n.decode_base64 (c.base64 key) ≡ some key
      → n.socket ≡ some k
      → negotiate_udp_mouse fl json n (frame body ++ rest)
        ≡ some (record { key = key; seq = 0; packets = []; room = k })
  unfolding negotiate_udp_mouse
  negotiate-frame n key body rest k (e, d, l) b k' =
      rw
        (read_message-frame fl json (udp_key_message key) body rest d l, negotiate_udp_mouse, b, k')
        refl

  pub start_edge-frame :
      (n : Network) (udp_mouse : Bool) (info rest : Bytes)
      → IsBody fl json screen_info info
      → pos 0 <ℤ c.own_w
      → pos 0 <ℤ c.own_h
      → start_edge fl json n udp_mouse (frame info ++ rest)
        ≡ started c.own_w c.own_h (if udp_mouse then negotiate_udp_mouse fl json n rest else none)
  unfolding start_edge
  start_edge-frame n udp_mouse info rest (e, d, l) w h =
      rw (read_message-frame fl json screen_info info rest d l, start_edge) (ground arith)

  -- What the target answers to an authentication that asks for the UDP channel.
  handle_conn-sent :
      (auth hello info key body more : Bytes) (s : State)
      → IsBody fl json (auth_message fl json c.token true) auth
      → IsBody fl json (message fl MsgType.auth_ok) hello
      → IsBody fl json screen_info info
      → IsBody fl json (udp_key_message key) body
      → c.fresh_key ≡ some key
      → length hello + length info + length body + 12 ≤ s.conn.room
      → (handle_conn fl json c (frame auth ++ more) s).conn.sent
        ≡ ((s.conn.sent ++ frame hello) ++ frame info) ++ frame body
  handle_conn-sent auth hello info key body more s (e, d, l) h i b fresh room =
      let m = auth_message fl json c.token true in
      let t = appended (appended s hello) info in
      let accepted =
        handle_conn-accepted fl json c m (frame auth ++ more) more s t
          (read_message-frame fl json m auth more d l) (accepts-auth fl json c m refl refl)
          (greet-fits hello info s h i (omega arith)) in
      rw
        (
          accepted,
          serve_session-conn fl json c more t,
          enable_udp_mouse-fits key body t fresh b (omega arith),
        )
        refl

  -- When both sides read the handshake's messages the way they were written, the target has a fresh key
  -- and the controller a socket, then a controller with the target's token writes one frame, and what the
  -- target answers authenticates it and starts its edge loop with the target's screen size and a UDP
  -- client that holds the target's key.
  pub handshake :
      (n : Network) (auth hello info key body more : Bytes) (k : ℕ) (s : State) (w : Writer)
      → IsBody fl json (auth_message fl json c.token true) auth
      → IsBody fl json (message fl MsgType.auth_ok) hello
      → IsBody fl json screen_info info
      → IsBody fl json (udp_key_message key) body
      → c.fresh_key ≡ some key
      → n.decode_base64 (c.base64 key) ≡ some key
      → n.socket ≡ some k
      → pos 0 <ℤ c.own_w
      → pos 0 <ℤ c.own_h
      → length hello + length info + length body + 12 ≤ s.conn.room
      → length auth + 4 ≤ w.room
      → s.conn.sent ≡ []
      → (rest : Bytes) × ((authenticate fl json c.token true w []).0.sent ≡ w.sent ++ frame auth)
        × ((authenticate fl json c.token true w
              (handle_conn fl json c (frame auth ++ more) s).conn.sent).1
            ≡ authenticated rest)
        × (start_edge fl json n true rest
            ≡ started c.own_w c.own_h
                (some (record { key = key; seq = 0; packets = []; room = k })))
  unfolding authenticate
  handshake n auth hello info key body more k s w (e, d, l) h i b fresh decoded socket ow oh room wr
        sent =
      let answered = handle_conn-sent auth hello info key body more s (e, d, l) h i b fresh room in
      let written = write_message_fits fl json w (auth_message fl json c.token true) auth e l wr in
      (
        frame info ++ frame body,
        rw (written, authenticate) (rw (written) refl),
        rw (answered, sent, append_assoc (frame hello) (frame info) (frame body))
            (authenticate-frame c.token true auth hello (frame info ++ frame body) w (e, d, l) h
              wr),
        start_edge-frame n true info (frame body) i ow oh
            ∙ ap (started c.own_w c.own_h) (
                ap (negotiate_udp_mouse fl json n) (sym (append-nil (frame body)))
                ∙ negotiate-frame n key body [] k b decoded socket),
      )
