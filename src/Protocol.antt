-- ===== src/Protocol.antt =====
-- internal/protocol/protocol.go: the edges of a screen, the message envelope and its framing.
-- A Go string type with named constants is a data type with a constructor for each constant, and
-- `other` for the strings that remain. `encoding/json` is an argument of the framing.
pub mod Framing
use ea_share.Base.{
  ℕ, ◌*◌, ◌%◌, ◌^◌, String, ◌≡◌, Bool, false, Option, none, some, List, [], ◌∷◌, arith, Bytes,
  length, ltb, if◌then◌else◌, ℤ, pos, put_uint32, uint32_at,
}
use ea_share.Stream.{Error, bad_json, too_large, Result, ok, err, ◌>>=◌, Writer, write, read_full}
use ea_share.Float.{Float, fzero}

abbrev pub max_message_size : ℕ
max_message_size = 64 * 1024

pub data MsgType : Type 0 where
  auth auth_ok auth_fail key mouse_move mouse_button mouse_wheel ping : MsgType
  screen_info engage udp_key : MsgType
  other : String → MsgType

pub data Edge : Type 0 where
  left right top bottom : Edge
  other : String → Edge

unfoldable pub opposite : Edge → Edge
opposite Edge.left = Edge.right
opposite Edge.right = Edge.left
opposite Edge.top = Edge.bottom
opposite Edge.bottom = Edge.top
opposite (Edge.other s) = Edge.other s

-- The strings of `inject.MouseButton` and `capture.MouseButton`.
pub data Button : Type 0 where
  left right middle : Button
  other : String → Button

pub record Message (fl : Float) : Type 0 where
  pub type : MsgType
  pub token : Bytes
  pub udp_mouse : Bool
  pub key : String
  pub down : Bool
  pub dx : ℤ
  pub dy : ℤ
  pub button : Button
  pub amount : ℤ
  pub width : ℤ
  pub height : ℤ
  pub edge : Edge
  pub rel_pos : fl.F
  pub udp_key : Bytes

-- `protocol.Message{Type: t}`: every other field has its zero value.
abbrev pub message : (fl : Float) → MsgType → Message fl
message fl t = record {
  type = t;
  token = [];
  udp_mouse = false;
  key = "";
  down = false;
  dx = pos 0;
  dy = pos 0;
  button = Button.other "";
  amount = pos 0;
  width = pos 0;
  height = pos 0;
  edge = Edge.other "";
  rel_pos = fzero fl;
  udp_key = [];
}

-- `json.Marshal` and `json.Unmarshal` at this type; `none` is an error.
pub record Json (fl : Float) : Type 0 where
  pub marshal : Message fl → Option Bytes
  pub unmarshal : Bytes → Option (Message fl)

module _ (fl : Float) (json : Json fl) where
  write_body : Writer → Bytes → Writer × Option Error
  write_body w body =
      if ltb max_message_size (length body)
      then (w, some too_large)
      else let (w', e) = write w (put_uint32 (length body % 2 ^ 32)) in
        elim e [ some x ↦ (w', some x) | none ↦ write w' body ]

  unfoldable pub write_message : Writer → Message fl → Writer × Option Error
  unfolding write_body
  write_message w m = elim (json.marshal m) [
    | none ↦ (w, some bad_json)
    | some body ↦ write_body w body
  ]

  decode_body : Bytes → Bytes → Result (Message fl × Bytes)
  decode_body body rest = elim (json.unmarshal body) [ none ↦ err bad_json | some m ↦ ok (m, rest) ]

  read_body : ℕ → Bytes → Result (Message fl × Bytes)
  unfolding decode_body
  read_body n r =
      if ltb max_message_size n
      then err too_large
      else (do (body, rest) ← read_full n r; decode_body body rest)

  -- The message and what the reader still holds.
  unfoldable pub read_message : Bytes → Result (Message fl × Bytes)
  unfolding read_body
  read_message r = do (hdr, r') ← read_full 4 r; read_body (uint32_at hdr) r'
