-- ===== src/Target/Conn.antt =====
-- cmd/target/main.go: `handleConn`, one controller's connection from its first message to its end.
pub mod Auth
pub mod Service
pub mod Channel
pub mod Replies
use ea_share.Base.{
  ℕ, zero, suc, ◌+◌, ◌≡◌, Bool, true, false, not, ◌&&◌, ◌||◌, Option, none, some, List, [], ◌∷◌,
  ◌++◌, Bytes, length, if◌then◌else◌, bytes_eq, ◌==◌, ℤ,
}
use ea_share.Float.{Float}
use ea_share.Stream.{Error, Result, ok, err, Writer}
use ea_share.Protocol.{Message, message, MsgType, Json, write_message, read_message}
use ea_share.Target.Udp.{UdpSession, start, stop}
use ea_share.Target.Dispatch.{
  Injection, Counts, Dispatched, call, nothing, unknown_button, unknown_type, dispatch,
}

-- `auth.TokensEqual` (internal/auth/auth.go).
unfoldable pub tokens_equal : Bytes → Bytes → Bool
tokens_equal got want = if not (length got == length want) then false else bytes_eq got want

-- What surrounds the connection: the configured token, this machine's screen, and what the random
-- source gives for the UDP key (`none` is its error) with its base64 text.
pub record Setup : Type 0 where
  pub token : Bytes
  pub own_w : ℤ
  pub own_h : ℤ
  pub fresh_key : Option Bytes
  pub base64 : Bytes → Bytes

-- The connection's output, the shared UDP session, the counters and the injector's calls so far.
pub record State : Type 0 where
  pub conn : Writer
  pub udp : UdpSession
  pub counts : Counts
  pub calls : List Injection

abbrev is_auth : MsgType → Bool
is_auth MsgType.auth = true
is_auth _ = false

module _ (fl : Float) (json : Json fl) (c : Setup) where
  -- `protocol.WriteMessage(conn, m)`.
  unfoldable pub reply : Message fl → State → State × Option Error
  reply m s = let (w, e) = write_message fl json s.conn m in (record s { conn = w }, e)

  -- `enableUDPMouse`; the Boolean is whether it succeeded.
  unfoldable pub enable_udp_mouse : State → State × Bool
  enable_udp_mouse s = elim c.fresh_key [
    | none ↦ (s, false)
    | some key ↦
        let armed = record s { udp = start key s.udp } in
        let (s', e) =
          reply (record (message fl MsgType.udp_key) { udp_key = c.base64 key }) armed in
        elim e [ none ↦ (s', true) | some x ↦ (record s' { udp = stop s'.udp }, false) ]
  ]

  record_call : Dispatched → State → State
  record_call (call i) s = record s { calls = s.calls ++ (i ∷ []) }
  record_call nothing s = s
  record_call (unknown_button b) s = s
  record_call (unknown_type t) s = s

  -- One message of the loop.
  unfoldable pub serve_message : Message fl → State → State
  unfolding record_call
  serve_message m s =
      let (n, d) = dispatch fl c.own_w c.own_h m s.counts in record_call d (record s { counts = n })

  -- The loop until `ReadMessage` fails. A message takes a byte at least, so the length of the input is
  -- fuel enough.
  unfoldable pub serve : ℕ → Bytes → State → State
  serve zero r s = s
  serve (suc fuel) r s = elim (read_message fl json r) [
    | ok (m, rest) ↦ serve fuel rest (serve_message m s)
    | err x ↦ s
  ]

  close_udp : Bool → State → State
  close_udp enabled s = if enabled then record s { udp = stop s.udp } else s

  -- After the authentication; `udpSess.stop()` is deferred only where the UDP channel was enabled.
  unfoldable pub serve_session : Bool → Bytes → State → State
  unfolding close_udp
  serve_session wants_udp r s =
      if wants_udp
      then (let (s', enabled) = enable_udp_mouse s in close_udp enabled (serve (length r) r s'))
      else serve (length r) r s

  -- The two messages that the target sends first.
  unfoldable pub greet : State → State × Option Error
  greet s =
      let (s', e) = reply (message fl MsgType.auth_ok) s in
      elim e [
        | some x ↦ (s', some x)
        | none ↦
            reply (record (message fl MsgType.screen_info) { width = c.own_w; height = c.own_h }) s'
      ]

  unfoldable pub accepts : Message fl → Bool
  accepts m = is_auth m.type && tokens_equal m.token c.token

  unfoldable pub refuse : State → State
  refuse s = (reply (message fl MsgType.auth_fail) s).0

  welcome : Message fl → Bytes → State × Option Error → State
  welcome m rest (s, some x) = s
  welcome m rest (s, none) = serve_session m.udp_mouse rest s

  unfoldable pub handle_conn : Bytes → State → State
  unfolding welcome
  handle_conn r s = elim (read_message fl json r) [
    | err x ↦ refuse s
    | ok (m, rest) ↦ if accepts m then welcome m rest (greet s) else refuse s
  ]
