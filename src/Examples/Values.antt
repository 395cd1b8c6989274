-- ===== src/Examples/Values.antt =====
-- Concrete arguments of the model: a message codec for some types, an authenticator, a session.
use ea_share.Base.{
  ℕ, zero, suc, Bool, true, false, Option, none, some, [], ◌∷◌, Bytes, length, replicate,
  length-replicate, pos, pos_part, take,
}
use ea_share.Protocol.{Message, message, MsgType, Json, Edge}
use ea_share.Stream.{Writer}
use ea_share.Mousesync.{Hmac}
use ea_share.Controller.EdgeLoop.{Session, Loop, UdpClient}
use ea_share.Target.Conn.{Setup, State}
use ea_share.Examples.Rational.{Rational, frac, rational}

-- The only fraction of an edge that the codec knows.
abbrev pub half : Rational
half = frac (pos 1) 1

abbrev flag : Bool → ℕ
flag false = 0
flag true = 1

abbrev encode : MsgType → Message rational → Bytes
encode MsgType.auth m = 0 ∷ flag m.udp_mouse ∷ m.token
encode MsgType.mouse_move m = 1 ∷ pos_part m.dx ∷ pos_part m.dy ∷ []
encode MsgType.ping m = 2 ∷ []
encode MsgType.auth_ok m = 4 ∷ []
encode MsgType.screen_info m = 5 ∷ pos_part m.width ∷ pos_part m.height ∷ []
encode MsgType.udp_key m = 6 ∷ m.udp_key
encode MsgType.engage m = 7 ∷ []
encode _ m = 3 ∷ []

abbrev decode : Bytes → Option (Message rational)
decode (zero ∷ zero ∷ token) = some (record (message rational MsgType.auth) { token = token })
decode (zero ∷ suc zero ∷ token) =
    some (record (message rational MsgType.auth) { token = token; udp_mouse = true })
decode (suc zero ∷ dx ∷ dy ∷ []) =
    some (record (message rational MsgType.mouse_move) { dx = pos dx; dy = pos dy })
decode (suc (suc zero) ∷ []) = some (message rational MsgType.ping)
decode (suc (suc (suc (suc zero))) ∷ []) = some (message rational MsgType.auth_ok)
decode (suc (suc (suc (suc (suc zero)))) ∷ w ∷ h ∷ []) =
    some (record (message rational MsgType.screen_info) { width = pos w; height = pos h })
decode (suc (suc (suc (suc (suc (suc zero))))) ∷ key) =
    some (record (message rational MsgType.udp_key) { udp_key = key })
decode (suc (suc (suc (suc (suc (suc (suc zero)))))) ∷ []) =
    some (record (message rational MsgType.engage) { edge = Edge.right; rel_pos = half })
decode _ = none

abbrev pub codec : Json rational
codec = record { marshal = λ m. some (encode m.type m); unmarshal = decode }

-- The tag repeats the first byte of the key.
abbrev pub tag : Hmac
tag = record {
  sum = λ key msg. replicate 32 (length (take 1 key));
  length-sum = λ key msg. length-replicate 32 (length (take 1 key));
}

abbrev pub session : Session
session = record {
  edge = Edge.right;
  target_w = pos 1920;
  target_h = pos 1080;
  bounds = record { x = pos 0; y = pos 0; w = pos 2560; h = pos 1440 };
  has_clip = false;
}

abbrev pub empty_writer : Writer
empty_writer = record { sent = []; room = 10000 }

-- Just after a crossing, at the left edge of the target.
abbrev pub entered : Loop
entered = record {
  conn = empty_writer;
  udp = none;
  engaged = true;
  moved_away = false;
  vx = pos 0;
  vy = pos 500;
  actions = [];
}

abbrev pub client : UdpClient
client = record { key = 7 ∷ []; seq = 4; packets = []; room = 9 }

abbrev pub setup : Setup
setup = record {
  token = 11 ∷ 12 ∷ [];
  own_w = pos 1920;
  own_h = pos 1080;
  fresh_key = some (7 ∷ []);
  base64 = λ b. b;
}

abbrev pub fresh : State
fresh = record {
  conn = empty_writer;
  udp = record { key = none; last_seq = 0 };
  counts = record { keys = 0; moves = 0; buttons = 0; wheels = 0 };
  calls = [];
}

abbrev pub hi : Bytes
hi = 104 ∷ 105 ∷ []

abbrev pub after : Bytes
after = 9 ∷ []
