-- ===== src/Examples/Service.antt =====
-- The target at concrete connections and datagrams.
use ea_share.Controller.Handshake.{Network, authenticate, authenticated, start_edge, started}
use ea_share.HandshakeLink.{handshake}
use ea_share.Base.{
  ℕ, suc, ◌≡◌, ◌≢◌, ◌≤◌, refl, Option, none, some, ℤ, pos, negsuc, arith, Bool, true, false, List,
  [], ◌∷◌, ◌++◌, length, Bytes, map, All, IsByte, take, ◌+◌, replicate, bytes_eq, uint32_at,
  uint64_at,
}
use ea_share.Stream.{ok, err, eof}
use ea_share.Protocol.{Message, message, MsgType, read_message}
use ea_share.Protocol.Framing.{frame}
use ea_share.Mousesync.{Packet, encode_packet, decode_packet}
use ea_share.Target.Udp.{UdpSession, stop, receive, serve_mouse_udp}
use ea_share.Target.Udp.Sequence.{newest, serve_mouse_udp-newest}
use ea_share.Target.Dispatch.{mouse_move}
use ea_share.Target.Conn.{State, serve, handle_conn}
use ea_share.Target.Conn.Auth.{handle_conn_needs_token}
use ea_share.Target.Conn.Service.{
  serve_fuel, serve-stream, stream, messages, injected_all, IsEncoded,
}
use ea_share.Target.Conn.Channel.{handle_conn_closes_udp}
use ea_share.Examples.Rational.{rational}
use ea_share.Examples.Values.{codec, tag, setup, fresh, empty_writer, after}

abbrev move : Message rational
move = record (message rational MsgType.mouse_move) { dx = pos 3; dy = pos 4 }

abbrev traffic : List (Message rational × Bytes)
traffic = (move, 1 ∷ 3 ∷ 4 ∷ []) ∷ (message rational MsgType.ping, 2 ∷ []) ∷ []

traffic-IsEncoded : All (IsEncoded rational codec setup) traffic
traffic-IsEncoded = ((refl, omega arith), ((refl, omega arith), tt))

nothing_left : read_message rational codec [] ≡ err eof
unfolding read_message ea_share.Stream.read_full
nothing_left = refl

serve-stream_example :
    (serve rational codec setup 40 (stream rational codec setup traffic ++ []) fresh).calls
    ≡ [] ++ injected_all rational codec setup (messages rational codec setup traffic)
unfolding ea_share.Base.put_uint32
serve-stream_example =
    serve-stream rational codec setup traffic [] eof 40 fresh traffic-IsEncoded nothing_left
      (omega arith)

serve_fuel_example :
    serve rational codec setup 5 (0 ∷ 0 ∷ 0 ∷ 1 ∷ 2 ∷ []) fresh
    ≡ serve rational codec setup 9 (0 ∷ 0 ∷ 0 ∷ 1 ∷ 2 ∷ []) fresh
serve_fuel_example =
    serve_fuel rational codec setup 5 9 (0 ∷ 0 ∷ 0 ∷ 1 ∷ 2 ∷ []) fresh (omega arith) (omega arith)

-- An `auth` message with the token, and a move.
abbrev session_bytes : Bytes
session_bytes = frame (0 ∷ 1 ∷ 11 ∷ 12 ∷ []) ++ frame (1 ∷ 3 ∷ 4 ∷ [])

calls_made :
    (handle_conn rational codec setup session_bytes fresh).calls ≡ mouse_move (pos 3) (pos 4) ∷ []
unfolding handle_conn read_message ea_share.Stream.read_full ea_share.Base.put_uint32 uint32_at
    ea_share.Target.Conn.accepts ea_share.Target.Conn.tokens_equal bytes_eq
    ea_share.Target.Conn.greet ea_share.Target.Conn.reply ea_share.Protocol.write_message
    ea_share.Stream.write ea_share.Target.Conn.serve_session ea_share.Target.Conn.enable_udp_mouse
    serve ea_share.Target.Conn.serve_message ea_share.Target.Dispatch.dispatch
calls_made = refl

injects : (handle_conn rational codec setup session_bytes fresh).calls ≢ []
injects e = ground (arith, calls_made)

handle_conn_needs_token_example :
    (m : Message rational) × (rest : Bytes) × (read_message rational codec session_bytes
      ≡ ok (m, rest))
    × (m.type ≡ MsgType.auth)
    × (m.token ≡ 11 ∷ 12 ∷ [])
handle_conn_needs_token_example =
    handle_conn_needs_token rational codec setup session_bytes fresh injects

handle_conn_closes_udp_example :
    (handle_conn rational codec setup session_bytes fresh).udp.key ≡ none
handle_conn_closes_udp_example =
    handle_conn_closes_udp rational codec setup session_bytes fresh refl

abbrev live : UdpSession
live = record { key = some (7 ∷ []); last_seq = 3 }

abbrev at : ℕ → Packet
at n = record { seq = n; x = pos 300; y = negsuc 1 }

-- The packet 5, twice, then 4, late, then 6.
abbrev arrivals : List Packet
arrivals = at 5 ∷ at 5 ∷ at 4 ∷ at 6 ∷ []

serve_mouse_udp-newest_example :
    (serve_mouse_udp tag (map (encode_packet tag (7 ∷ [])) arrivals) live).1 ≡ newest 3 arrivals
serve_mouse_udp-newest_example =
    serve_mouse_udp-newest tag (7 ∷ []) arrivals live (ground arith) refl

abbrev datagram : Bytes
datagram = 0 ∷ 0 ∷ 0 ∷ 0 ∷ 0 ∷ 0 ∷ 0 ∷ 5 ∷ 0 ∷ 0 ∷ 1 ∷ 44 ∷ 255 ∷ 255 ∷ 255 ∷ 254 ∷ replicate 32 1

datagram_bytes : All IsByte datagram
datagram_bytes = ground arith

datagram_received : (receive tag datagram live).1 ≡ at 5 ∷ []
unfolding receive decode_packet uint64_at uint32_at bytes_eq ea_share.Target.Udp.apply_sized
    ea_share.Target.Udp.apply ea_share.Target.Udp.accept
datagram_received = refl

abbrev pub network : Network
network = record { decode_base64 = λ b. some b; socket = some 9 }

handshake_example :
    (rest : Bytes) × ((authenticate rational codec setup.token true empty_writer []).0.sent
      ≡ frame (0 ∷ 1 ∷ 11 ∷ 12 ∷ []))
    × ((authenticate rational codec setup.token true empty_writer
          (handle_conn rational codec setup
            (frame (0 ∷ 1 ∷ 11 ∷ 12 ∷ []) ++ after)
            fresh).conn.sent).1
        ≡ authenticated rest)
    × (start_edge rational codec network true rest
        ≡ started
            (pos 1920)
            (pos 1080)
            (some (record { key = 7 ∷ []; seq = 0; packets = []; room = 9 })))
handshake_example =
    handshake rational codec setup network (0 ∷ 1 ∷ 11 ∷ 12 ∷ []) (4 ∷ []) (5 ∷ 1920 ∷ 1080 ∷ [])
      (7 ∷ []) (6 ∷ 7 ∷ []) after 9 fresh empty_writer (refl, refl, omega arith)
      (refl, refl, omega arith) (refl, refl, omega arith) (refl, refl, omega arith) refl refl refl
      (omega arith) (omega arith) (omega arith) (omega arith) refl
