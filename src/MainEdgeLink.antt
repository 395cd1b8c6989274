-- ===== src/MainEdgeLink.antt =====
-- A whole session with edge switching and no UDP channel: `main` of cmd/controller/main.go and `runEdgeAware` of
-- edge_windows.go against `handleConn` of cmd/target/main.go.
use ea_share.Base.{
  ◌+◌, ◌-◌, ◌≤◌, ◌≡◌, refl, sym, ap, ◌∙◌, String, true, false, Option, none, some, List, [], ◌++◌,
  arith, Bytes, length, append-nil, pos, ◌<ℤ◌,
}
use ea_share.Float.{Float}
use ea_share.Stream.{Writer}
use ea_share.Protocol.{Edge, Message, message, MsgType, Json}
use ea_share.Protocol.Framing.{frame}
use ea_share.Mousesync.{Hmac}
use ea_share.Addr.{Net}
use ea_share.Identity.{Crypto}
use ea_share.Target.Conn.{Setup, State, handle_conn}
use ea_share.Target.Conn.Service.{stream}
use ea_share.Controller.Trust.{KnownHosts, HostsJson, Casing, open_known_hosts, lookup}
use ea_share.Controller.Handshake.{
  proceed, check_flags, authenticated, authenticate, auth_message, started, start_edge,
}
use ea_share.Controller.EdgeLoop.{Session, Loop, running}
use ea_share.Controller.Main.{
  Options, Surroundings, shared_at_edge, main, dial_and_verify, dial_clip, clip_writer, has_clip,
  session_at, first_loop,
}
use ea_share.Controller.Main.Sharing.{main_shares_at_edge}
use ea_share.Controller.Clip.{Dialled}
use ea_share.HandshakeLink.{IsBody, screen_info, start_edge-frame}
use ea_share.MainLink.{authenticate-fits, handle_conn-answers}
use ea_share.EdgeServeLink.{Encodes, effects, All-IsEncoded, run-stream}

module _ (fl : Float) (json : Json fl) (mac : Hmac) (net : Net) (crypto : Crypto)
    (hosts : HostsJson) (casing : Casing) (bytes : String → Bytes) (w : Surroundings fl)
    (o : Options) (c : Setup) where
  -- The clipboard's connection of a run that opened the store `kh`, and whether the loop has one.
  abbrev pub clip_of : KnownHosts → Option (Writer × Dialled)
  clip_of kh = dial_clip fl json mac net crypto hosts casing bytes w o (
      lookup o.connect
        (dial_and_verify fl json mac net crypto hosts casing bytes o (w.peer_at o.connect)
          kh).0.entries)

  abbrev pub session_of : Edge → KnownHosts → Session
  session_of edge kh = session_at w edge (has_clip (clip_of kh)) c.own_w c.own_h

  -- The loop before its first event, on a fresh connection over which the authentication was sent.
  abbrev pub loop_after : Bytes → Loop
  loop_after auth = first_loop none (record {
    sent = (w.peer_at o.connect).writer.sent ++ frame auth;
    room = (w.peer_at o.connect).writer.room - (length auth + 4);
  })

  -- `main` with an edge and no UDP channel, whose flags and trust store let it connect to a target with its token,
  -- over a fresh connection with room for its frames and on which it reads what `handleConn` answers to them; both
  -- sides agree on the body of each message, which is within the limit, the target has room for its two replies, and
  -- its screen is not empty. Then `main` is authenticated, learns the size of that screen, and takes every event that
  -- it captures, whether or not the clipboard's connection stands; and from what it has sent, the authentication
  -- included, the target puts its cursor after each crossing where the loop simulates it, and injects each other
  -- input after which the loop is engaged, once and in order.
  pub main_edge_session :
      (edge : Edge) (kh : KnownHosts) (xs : List (Message fl × Bytes)) (auth hello info : Bytes)
      (s : State)
      → check_flags o.connect o.token o.edge o.udp_mouse ≡ proceed (some edge)
      → o.udp_mouse ≡ false
      → bytes o.token ≡ c.token
      → open_known_hosts hosts w.file_reads w.file ≡ some kh
      → (dial_and_verify fl json mac net crypto hosts casing bytes o (w.peer_at o.connect) kh).1
        ≡ true
      → (w.peer_at o.connect).writer.sent ≡ []
      → (w.peer_at o.connect).replies
        ≡ (handle_conn fl json c (frame auth ++ stream fl json c xs) s).conn.sent
      → w.captures ≡ true
      → pos 0 <ℤ c.own_w
      → pos 0 <ℤ c.own_h
      → Encodes fl json mac (session_of edge kh) w.events (loop_after auth) xs
      → IsBody fl json (auth_message fl json c.token false) auth
      → IsBody fl json (message fl MsgType.auth_ok) hello
      → IsBody fl json (screen_info fl json c) info
      → length auth + 4 + length (stream fl json c xs) ≤ (w.peer_at o.connect).writer.room
      → length hello + length info + 8 ≤ s.conn.room
      → s.conn.sent ≡ []
      → (last : Loop) × (main fl json mac net crypto hosts casing bytes w o ≡ record {
        conn = some last.conn;
        clip = clip_writer (clip_of kh);
        ending = shared_at_edge (running last);
      })
        × ((handle_conn fl json c last.conn.sent s).calls
            ≡ s.calls ++ effects fl json mac (session_of edge kh) w.events (loop_after auth))
  unfolding session_at first_loop
  main_edge_session edge kh xs auth hello info s flags tcp token opened dialled start replies starts
        wide high enc a h i room room' sent =
      let p = w.peer_at o.connect in
      let body = stream fl json c xs in
      let here = session_of edge kh in
      let first = loop_after auth in
      let (answers, calls) =
        handle_conn-answers fl json c auth hello info xs s a h i room' sent
          (All-IsEncoded fl json mac here c refl refl enc) in
      let answered = replies ∙ answers in
      let authed : authenticate fl json (bytes o.token) o.udp_mouse p.writer p.replies
          ≡ (first.conn, authenticated (frame info)) =
        rw (tcp, token, answered)
          (authenticate-fits fl json c c.token auth hello (frame info) p.writer a h
            (omega arith)) in
      let size : start_edge fl json w.network o.udp_mouse (frame info)
          ≡ started c.own_w c.own_h none =
        rw (tcp) (
          ap (start_edge fl json w.network false) (sym (append-nil (frame info)))
          ∙ start_edge-frame fl json c w.network false info [] i wide high) in
      let (last, ran, wire, injected) =
        run-stream fl json mac here c refl refl first enc refl (omega arith) in
      let whole : last.conn.sent ≡ frame auth ++ body =
        wire ∙ ap (λ b. (b ++ frame auth) ++ body) start in
      (
        last,
        main_shares_at_edge fl json mac net crypto hosts casing bytes w o edge kh first.conn
            (frame info) c.own_w c.own_h none last flags opened dialled authed size starts ran,
        ap (λ b. (handle_conn fl json c b s).calls) whole ∙ calls ∙ ap (λ x. s.calls ++ x) injected,
      )
