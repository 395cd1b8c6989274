-- ===== src/Inject/Linux.antt =====
-- internal/inject/inject_linux.go: the calls of the uinput library; `none` is the error for a key or a
-- button that is not known.
use Prim.Native.String.{◌++◌ as text_append}
use ea_share.Base.{String, ℕ, Bool, false, Option, none, some, if◌then◌else◌, ℤ}
use ea_share.Keys.{Name, name_lookup}
use ea_share.Keys.Linux.{name_to_keycode}
use ea_share.Protocol.{Button}

abbrev pub virtual_device_marker : String
virtual_device_marker = "kbs-virtual-input"

-- The names that `New` gives its two devices.
abbrev pub keyboard_name : String
keyboard_name = text_append virtual_device_marker "-kbd"

abbrev pub mouse_name : String
mouse_name = text_append virtual_device_marker "-mouse"

-- The methods of `uinput.Keyboard` and `uinput.Mouse` that are called.
pub data Uinput : Type 0 where
  key_down key_up : ℕ → Uinput
  move : ℤ → ℤ → Uinput
  left_press left_release right_press right_release middle_press middle_release : Uinput
  wheel : Bool → ℤ → Uinput

unfoldable pub key : Name → Bool → Option Uinput
key name down = elim (name_lookup name name_to_keycode) [
  | none ↦ none
  | some code ↦ some (if down then key_down code else key_up code)
]

unfoldable pub mouse_move : ℤ → ℤ → Uinput
mouse_move dx dy = move dx dy

unfoldable pub mouse_button : Button → Bool → Option Uinput
mouse_button Button.left down = some (if down then left_press else left_release)
mouse_button Button.right down = some (if down then right_press else right_release)
mouse_button Button.middle down = some (if down then middle_press else middle_release)
mouse_button (Button.other s) down = none

unfoldable pub mouse_wheel : ℤ → Uinput
mouse_wheel amount = wheel false amount
