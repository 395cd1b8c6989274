-- ===== src/Examples/Edge.antt =====
-- A run with edge switching, from the captured events to the target, at concrete inputs.
use ea_share.Base.{
  ◌≡◌, refl, arith, true, false, none, some, List, [], ◌∷◌, ◌++◌, Bytes, length, pos, negsuc,
}
use ea_share.Capture.{Event, mouse_move, mouse_wheel, edge_crossed}
use ea_share.Protocol.{Message, message, MsgType, Edge}
use ea_share.Controller.EdgeLoop.{Session, Loop, running, handle, on_mouse_move, run, hand_back}
use ea_share.Controller.EdgeLoop.Writing.{message_at}
use ea_share.Target.Conn.{serve}
use ea_share.Target.Conn.{handle_conn}
use ea_share.Target.Conn.Service.{stream}
use ea_share.Protocol.Framing.{frame}
use ea_share.Controller.Handshake.{proceed, check_flags}
use ea_share.Controller.Main.{
  Peer, Surroundings, dial_and_verify, main, shared_at_edge, clip_writer,
}
use ea_share.MainEdgeLink.{clip_of, session_of, loop_after, main_edge_session}
use ea_share.Examples.Hosts.{hosts, casing, crypto, empty_hosts}
use ea_share.Examples.Starts.{net, bytes, edged, auth_body, answering, world, opened_store}
use ea_share.EdgeServeLink.{Encodes, effects, run-serve}
use ea_share.Examples.Rational.{rational}
use ea_share.Examples.Values.{codec, tag, session, setup, fresh, entered, half}

abbrev waiting : Loop
waiting = record entered { engaged = false }

-- A wheel at home, a crossing, a move on the target, and one that hands control back.
abbrev visit : List (Event rational)
visit =
    mouse_wheel (pos 1)
    ∷ edge_crossed half
    ∷ mouse_move (pos 3) (pos 4)
    ∷ mouse_move (negsuc 8) (pos 0)
    ∷ []

abbrev visit_bodies : List (Message rational × Bytes)
visit_bodies =
    (record (message rational MsgType.engage) { edge = Edge.right; rel_pos = half }, 7 ∷ [])
    ∷ (record (message rational MsgType.mouse_move) { dx = pos 3; dy = pos 4 }, 1 ∷ 3 ∷ 4 ∷ [])
    ∷ []

visit-Encodes : Encodes rational codec tag session visit waiting visit_bodies
unfolding message_at handle ea_share.Controller.EdgeLoop.forward
    ea_share.Controller.EdgeLoop.on_edge_crossed on_mouse_move
    ea_share.Controller.EdgeLoop.send_move ea_share.Controller.EdgeLoop.track
    ea_share.Controller.EdgeLoop.send_message ea_share.Protocol.write_message ea_share.Stream.write
    ea_share.Base.put_uint32 ea_share.Controller.EdgeMath.pushes_past ea_share.Protocol.opposite
    ea_share.Base.add32 ea_share.Base.◌+ℤ◌ ea_share.Controller.EdgeMath.has_moved_away
    ea_share.Controller.EdgeMath.entry_position ea_share.Base.◌*ℤ◌
    ea_share.Controller.EdgeMath.clamp_i ea_share.Base.sub32 ea_share.Base.◌-ℤ◌ hand_back
visit-Encodes = Encodes.skip refl (
    Encodes.put refl refl refl (omega arith)
      (Encodes.put refl refl refl (omega arith) (Encodes.skip refl Encodes.done)))

run-serve_example :
    (l : Loop) × (run rational codec tag session visit waiting ≡ running l)
    × ((serve rational codec setup (length l.conn.sent) l.conn.sent fresh).calls
        ≡ [] ++ effects rational codec tag session visit waiting)
unfolding ea_share.Base.put_uint32
run-serve_example =
    run-serve rational codec tag session setup refl refl waiting fresh visit-Encodes refl refl
      (omega arith)

abbrev visited : Peer
visited = record answering {
  replies =
      (handle_conn rational codec setup
        (frame auth_body ++ stream rational codec setup visit_bodies) fresh).conn.sent;
}

abbrev visiting : Surroundings rational
visiting = record world { peer_at = λ addr. visited; events = visit }

to_the_right : check_flags "host:24800" "secret" "right" false ≡ proceed (some Edge.right)
unfolding check_flags ea_share.Controller.Handshake.parse_edge
to_the_right = refl

connected :
    (dial_and_verify rational codec tag net crypto hosts casing bytes edged visited empty_hosts).1
    ≡ true
unfolding dial_and_verify ea_share.Controller.Trust.verify_connection
    ea_share.Controller.Trust.lookup ea_share.Examples.Hosts.codes ea_share.Examples.Hosts.number
    ea_share.Controller.Trust.pin ea_share.Identity.fingerprint ea_share.Base.digit
connected = refl

abbrev right_session : Session
right_session =
    session_of rational codec tag net crypto hosts casing bytes visiting edged setup Edge.right
      empty_hosts

abbrev first : Loop
first = loop_after rational codec tag net crypto hosts casing bytes visiting edged setup auth_body

events-Encodes : Encodes rational codec tag right_session visit first visit_bodies
unfolding message_at handle ea_share.Controller.EdgeLoop.forward
    ea_share.Controller.EdgeLoop.on_edge_crossed on_mouse_move
    ea_share.Controller.EdgeLoop.send_move ea_share.Controller.EdgeLoop.track
    ea_share.Controller.EdgeLoop.send_message ea_share.Protocol.write_message ea_share.Stream.write
    ea_share.Base.put_uint32 ea_share.Controller.EdgeMath.pushes_past ea_share.Protocol.opposite
    ea_share.Base.add32 ea_share.Base.◌+ℤ◌ ea_share.Controller.EdgeMath.has_moved_away
    ea_share.Controller.EdgeMath.entry_position ea_share.Base.◌*ℤ◌
    ea_share.Controller.EdgeMath.clamp_i ea_share.Base.sub32 ea_share.Base.◌-ℤ◌ hand_back
    ea_share.Controller.Main.session_at ea_share.Controller.Main.first_loop
events-Encodes = Encodes.skip refl (
    Encodes.put refl refl refl (omega arith)
      (Encodes.put refl refl refl (omega arith) (Encodes.skip refl Encodes.done)))

main_edge_session_example :
    (last : Loop) × (main rational codec tag net crypto hosts casing bytes visiting edged ≡ record {
      conn = some last.conn;
      clip = clip_writer (
          clip_of rational codec tag net crypto hosts casing bytes visiting edged setup
            empty_hosts);
      ending = shared_at_edge (running last);
    })
    × ((handle_conn rational codec setup last.conn.sent fresh).calls
        ≡ [] ++ effects rational codec tag right_session visit first)
unfolding ea_share.Base.put_uint32
main_edge_session_example =
    main_edge_session rational codec tag net crypto hosts casing bytes visiting edged setup
      Edge.right empty_hosts visit_bodies auth_body (4 ∷ []) (5 ∷ 1920 ∷ 1080 ∷ []) fresh
      to_the_right refl refl opened_store connected refl refl refl (omega arith) (omega arith)
      events-Encodes (refl, refl, omega arith) (refl, refl, omega arith) (refl, refl, omega arith)
      (omega arith) (omega arith) refl
