-- ===== src/MainLink.antt =====
-- A whole session without edge switching: `main` and `runLegacy` of cmd/controller/main.go against `handleConn` of
-- cmd/target/main.go.
use ea_share.Base.{
  ◌+◌, ◌-◌, ◌≤◌, ◌≡◌, refl, ap, ◌∙◌, String, true, false, none, some, List, [], ◌++◌, arith, Bytes,
  length, All, append-nil,
}
use ea_share.Float.{Float}
use ea_share.Stream.{Writer, eof}
use ea_share.Protocol.{Message, message, MsgType, Json}
use ea_share.Protocol.Framing.{write_message_fits, read_message-frame, frame}
use ea_share.Mousesync.{Hmac}
use ea_share.Addr.{Net}
use ea_share.Identity.{Crypto}
use ea_share.Target.Conn.{Setup, State, serve_session, handle_conn}
use ea_share.Target.Conn.Service.{IsEncoded, stream, messages, injected_all, serve-stream}
use ea_share.Target.Conn.Replies.{serve-conn, accepts-auth, handle_conn-accepted}
use ea_share.Controller.Trust.{KnownHosts, HostsJson, Casing, open_known_hosts}
use ea_share.Controller.Handshake.{proceed, check_flags, authenticated, authenticate, auth_message}
use ea_share.Controller.Legacy.{sending}
use ea_share.Controller.Main.{Options, Surroundings, shared, main, dial_and_verify}
use ea_share.Controller.Main.Sharing.{main_shares_all}
use ea_share.HandshakeLink.{IsBody, screen_info, appended, greet-fits, read_auth-frame}
use ea_share.SessionLink.{
  Encodes, direct_all, empty, All-IsEncoded, injected_all-direct, run_legacy-stream,
}

module _ (fl : Float) (json : Json fl) (c : Setup) where
  pub authenticate-fits :
      (token : Bytes) (auth hello rest : Bytes) (w : Writer)
      → IsBody fl json (auth_message fl json token false) auth
      → IsBody fl json (message fl MsgType.auth_ok) hello
      → length auth + 4 ≤ w.room
      → authenticate fl json token false w (frame hello ++ rest) ≡ (
        record { sent = w.sent ++ frame auth; room = w.room - (length auth + 4) },
        authenticated rest,
      )
  unfolding authenticate
  authenticate-fits token auth hello rest w (e, d, l) h room =
      let written = write_message_fits fl json w (auth_message fl json token false) auth e l room in
      rw (written, authenticate)
        (rw (written) (
          ap (λ a. (record { sent = w.sent ++ frame auth; room = w.room - (length auth + 4) }, a))
            (read_auth-frame fl json c hello rest h)))

  -- The target at an authentication that does not ask for the UDP channel.
  handle_conn-plain :
      (auth hello info more : Bytes) (s : State)
      → IsBody fl json (auth_message fl json c.token false) auth
      → IsBody fl json (message fl MsgType.auth_ok) hello
      → IsBody fl json (screen_info fl json c) info
      → length hello + length info + 8 ≤ s.conn.room
      → handle_conn fl json c (frame auth ++ more) s
        ≡ serve_session fl json c false more (appended fl json c (appended fl json c s hello) info)
  handle_conn-plain auth hello info more s (e, d, l) h i room =
      let m = auth_message fl json c.token false in
      handle_conn-accepted fl json c m (frame auth ++ more) more s
        (appended fl json c (appended fl json c s hello) info)
        (read_message-frame fl json m auth more d l) (accepts-auth fl json c m refl refl)
        (greet-fits fl json c hello info s h i room)

  -- Its two replies, and what it injects from the messages that follow.
  pub handle_conn-answers :
      (auth hello info : Bytes) (xs : List (Message fl × Bytes)) (s : State)
      → IsBody fl json (auth_message fl json c.token false) auth
      → IsBody fl json (message fl MsgType.auth_ok) hello
      → IsBody fl json (screen_info fl json c) info
      → length hello + length info + 8 ≤ s.conn.room
      → s.conn.sent ≡ []
      → All (IsEncoded fl json c) xs
      → let s' = handle_conn fl json c (frame auth ++ stream fl json c xs) s in
        (s'.conn.sent ≡ frame hello ++ frame info)
        × (s'.calls ≡ s.calls ++ injected_all fl json c (messages fl json c xs))
  unfolding serve_session
  handle_conn-answers auth hello info xs s a h i room sent enc =
      let body = stream fl json c xs in
      let t = appended fl json c (appended fl json c s hello) info in
      let handled = handle_conn-plain auth hello info body s a h i room in
      let full = append-nil body in
      let served =
        serve-stream fl json c xs [] eof (length body) t enc (empty fl json)
          (omega (arith, ap length full)) in
      (
        rw (handled, serve-conn fl json c (length body) body t, sent) refl,
        rw (handled) (rw (full) at served),
      )

module _ (fl : Float) (json : Json fl) (mac : Hmac) (net : Net) (crypto : Crypto)
    (hosts : HostsJson) (casing : Casing) (bytes : String → Bytes) (w : Surroundings fl)
    (o : Options) (c : Setup) where
  -- `main` without an edge, whose flags and trust store let it connect to a target with its token, over a fresh
  -- connection with room for its frames and on which it reads what `handleConn` answers to them; both sides agree
  -- on the body of each message, which is within the limit, and the target has room for its two replies. Then
  -- `main` is authenticated and shares all that it captures, and from what it has sent, the authentication
  -- included, the target injects exactly what the user does, each key, motion, button and scroll once and in order.
  pub main_session :
      (kh : KnownHosts) (xs : List (Message fl × Bytes)) (auth hello info : Bytes) (s : State)
      → check_flags o.connect o.token o.edge o.udp_mouse ≡ proceed none
      → o.udp_mouse ≡ false
      → bytes o.token ≡ c.token
      → open_known_hosts hosts w.file_reads w.file ≡ some kh
      → (dial_and_verify fl json mac net crypto hosts casing bytes o (w.peer_at o.connect) kh).1
        ≡ true
      → (w.peer_at o.connect).writer.sent ≡ []
      → (w.peer_at o.connect).replies
        ≡ (handle_conn fl json c (frame auth ++ stream fl json c xs) s).conn.sent
      → w.captures ≡ true
      → Encodes fl json w.received xs
      → IsBody fl json (auth_message fl json c.token false) auth
      → IsBody fl json (message fl MsgType.auth_ok) hello
      → IsBody fl json (screen_info fl json c) info
      → length auth + 4 + length (stream fl json c xs) ≤ (w.peer_at o.connect).writer.room
      → length hello + length info + 8 ≤ s.conn.room
      → s.conn.sent ≡ []
      → (after : Writer) × (main fl json mac net crypto hosts casing bytes w o
          ≡ record { conn = some after; clip = none; ending = shared (sending after) })
        × ((handle_conn fl json c after.sent s).calls ≡ s.calls ++ direct_all w.received)
  main_session kh xs auth hello info s flags tcp token opened dialled start replies cap enc a h i
        room room' sent =
      let p = w.peer_at o.connect in
      let body = stream fl json c xs in
      let (answers, calls) =
        handle_conn-answers fl json c auth hello info xs s a h i room' sent
          (All-IsEncoded fl json c enc) in
      let conn : Writer = record {
        sent = p.writer.sent ++ frame auth;
        room = p.writer.room - (length auth + 4);
      } in
      let answered = replies ∙ answers in
      let authed : authenticate fl json (bytes o.token) o.udp_mouse p.writer p.replies
          ≡ (conn, authenticated (frame info)) =
        rw (tcp, token, answered)
          (authenticate-fits fl json c c.token auth hello (frame info) p.writer a h
            (omega arith)) in
      let ran = run_legacy-stream fl json c conn enc (omega arith) in
      (
        record { sent = conn.sent ++ body; room = conn.room - length body },
        main_shares_all fl json mac net crypto hosts casing bytes w o kh conn _ (frame info) flags
            opened dialled authed cap ran,
        rw (start, calls, injected_all-direct fl json c enc) refl,
      )
