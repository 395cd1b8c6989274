-- ===== src/Capture/Linux.antt =====
-- internal/capture/capture_linux.go: `readLoop` over the bytes of one input device.
pub mod Reports
pub mod Devices
pub mod Readers
use ea_share.Base.{
  ℕ, zero, suc, ◌+◌, ◌*◌, ◌≡◌, Bool, true, false, not, ◌&&◌, ◌||◌, Option, none, some, List, [],
  ◌∷◌, Bytes, drop, ◌==◌, if◌then◌else◌, ℤ, pos, eqb_ℤ, add32, int32,
}
use ea_share.Float.{Float}
use ea_share.Stream.{ok, err, read_full}
use ea_share.Keys.{Name}
use ea_share.Keys.Linux.{keycode_to_name}
use ea_share.Protocol.{Button}
use ea_share.Capture.{Event, key, mouse_move, mouse_button, mouse_wheel, send_event}

abbrev pub input_event_size : ℕ
input_event_size = 24

-- `binary.LittleEndian.Uint16` and `Uint32` of the bytes at the front.
unfoldable pub uint16_le : Bytes → ℕ
uint16_le (a ∷ b ∷ _) = a + b * 256
uint16_le _ = 0

unfoldable pub uint32_le : Bytes → ℕ
uint32_le (a ∷ b ∷ c ∷ d ∷ _) = a + b * 256 + c * 65536 + d * 16777216
uint32_le _ = 0

pub record InputEvent : Type 0 where
  pub typ : ℕ
  pub code : ℕ
  pub value : ℤ

unfoldable pub input_event : Bytes → InputEvent
input_event buf = record {
  typ = uint16_le (drop 16 buf);
  code = uint16_le (drop 18 buf);
  value = int32 (uint32_le (drop 20 buf));
}

-- The channel and the two variables of the loop.
pub record Reader (fl : Float) : Type 0 where
  pub events : List (Event fl)
  pub dx : ℤ
  pub dy : ℤ

module _ {fl : Float} where
  unfoldable pub send : Event fl → Reader fl → Reader fl
  send e r = record r { events = send_event fl e r.events }

  send_known : Option Name → Bool → Reader fl → Reader fl
  unfolding send
  send_known none down r = r
  send_known (some n) down r = send (key n down) r

  -- The case `evKey`.
  unfoldable pub key_event : ℕ → ℤ → Reader fl → Reader fl
  unfolding send send_known
  key_event code value r =
      if not (eqb_ℤ value (pos 0)) && not (eqb_ℤ value (pos 1))
      then r
      else let down = eqb_ℤ value (pos 1) in
        if code == 0x110
        then send (mouse_button Button.left down) r
        else if code == 0x111
        then send (mouse_button Button.right down) r
        else if code == 0x112
        then send (mouse_button Button.middle down) r
        else send_known (keycode_to_name code) down r

  -- The case `evRel`.
  unfoldable pub rel_event : ℕ → ℤ → Reader fl → Reader fl
  unfolding send
  rel_event code value r =
      if code == 0x00
      then record r { dx = add32 r.dx value }
      else if code == 0x01
      then record r { dy = add32 r.dy value }
      else if code == 0x08
      then send (mouse_wheel value) r
      else r

  -- The case `evSyn`.
  unfoldable pub syn_event : Reader fl → Reader fl
  unfolding send
  syn_event r =
      if not (eqb_ℤ r.dx (pos 0)) || not (eqb_ℤ r.dy (pos 0))
      then record (send (mouse_move r.dx r.dy) r) { dx = pos 0; dy = pos 0 }
      else r

  unfoldable pub read_event : InputEvent → Reader fl → Reader fl
  read_event e r =
      if e.typ == 0x01
      then key_event e.code e.value r
      else if e.typ == 0x02
      then rel_event e.code e.value r
      else if e.typ == 0x00
      then syn_event r
      else r

  -- The loop until a read fails; an event takes 24 bytes, so the length of the input is fuel enough.
  unfoldable pub read_loop : ℕ → Bytes → Reader fl → Reader fl
  read_loop zero f r = r
  read_loop (suc fuel) f r = elim (read_full input_event_size f) [
    | ok (buf, rest) ↦ read_loop fuel rest (read_event (input_event buf) r)
    | err x ↦ r
  ]
