-- ===== src/Inject/Windows.antt =====
-- internal/inject/inject_windows.go: the INPUT structures that are passed to SendInput; `none` is the
-- error for a key or a button that is not known.
use Prim.Native.Nat.{bit_or}
use ea_share.Base.{
  ℕ, ◌%◌, ◌^◌, Bool, false, not, ◌||◌, Option, none, some, List, [], ◌∷◌, ◌==◌, if◌then◌else◌, ℤ,
  pos, ◌*ℤ◌, wrap32, uint32,
}
use ea_share.Keys.{Name, name_lookup}
use ea_share.Keys.Windows.{name_to_vk}
use ea_share.Protocol.{Button}

-- `keybdInput` and `mouseInputStruct`, without the fields that are always 0.
pub record KeyInput : Type 0 where
  pub w_vk : ℕ
  pub dw_flags : ℕ

pub record MouseInput : Type 0 where
  pub dx : ℤ
  pub dy : ℤ
  pub mouse_data : ℕ
  pub dw_flags : ℕ

abbrev extended_keys : List ℕ
extended_keys =
    0x25 ∷ 0x26 ∷ 0x27 ∷ 0x28 ∷ 0x24 ∷ 0x23 ∷ 0x21 ∷ 0x22 ∷ 0x2D ∷ 0x2E ∷ 0xA3 ∷ 0xA5 ∷ 0x5B ∷ 0x5C
    ∷ []

-- `extendedKeys[vk]`, false for a missing key.
pub is_extended : ℕ → List ℕ → Bool
is_extended vk [] = false
is_extended vk (k ∷ ks) = k == vk || is_extended vk ks

key_input : ℕ → Bool → KeyInput
key_input vk down =
    let flags = if not down then 0x0002 else 0 in
    record {
      w_vk = vk % 2 ^ 16;
      dw_flags = if is_extended vk extended_keys then bit_or flags 0x0001 else flags;
    }

unfoldable pub key : Name → Bool → Option KeyInput
unfolding key_input
key name down = elim (name_lookup name name_to_vk) [
  | none ↦ none
  | some vk ↦ some (key_input vk down)
]

unfoldable pub mouse_move : ℤ → ℤ → MouseInput
mouse_move dx dy = record { dx = dx; dy = dy; mouse_data = 0; dw_flags = 0x0001 }

button_input : ℕ → MouseInput
button_input flag = record { dx = pos 0; dy = pos 0; mouse_data = 0; dw_flags = flag }

unfoldable pub mouse_button : Button → Bool → Option MouseInput
unfolding button_input
mouse_button Button.left down = some (button_input (if down then 0x0002 else 0x0004))
mouse_button Button.right down = some (button_input (if down then 0x0008 else 0x0010))
mouse_button Button.middle down = some (button_input (if down then 0x0020 else 0x0040))
mouse_button (Button.other s) down = none

unfoldable pub mouse_wheel : ℤ → MouseInput
mouse_wheel amount = record {
  dx = pos 0;
  dy = pos 0;
  mouse_data = uint32 (wrap32 (amount *ℤ pos 120));
  dw_flags = 0x0800;
}
