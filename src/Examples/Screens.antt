-- ===== src/Examples/Screens.antt =====
-- The key tables and the geometry at concrete inputs.
use ea_share.Base.{
  ℕ, ◌≡◌, ◌≢◌, refl, Option, none, some, ℤ, pos, negsuc, arith, int_laws, ◌≤ℤ◌, ◌<ℤ◌, Bool, true,
  false, inl, inr, ◌+ℤ◌, IsInt32, sub32, ◌*ℤ◌,
}
use ea_share.Keys.{name_lookup, code_lookup}
use ea_share.Keys.Windows.{name_to_vk, vk_to_name}
use ea_share.Keys.Linux.{name_to_keycode}
use ea_share.Keys.Coverage.{IsInjectable, captured_names_mapped}
use ea_share.Float.{clamp01}
use ea_share.Screen.{Bounds, Point}
use ea_share.Protocol.{Edge}
use ea_share.Capture.Windows.{edge_reached}
use ea_share.Examples.Rational.{frac, rational}

vk_of_v : name_lookup "V" name_to_vk ≡ some 0x56
unfolding name_lookup
vk_of_v = refl

keycode_of_v : name_lookup "V" name_to_keycode ≡ some 47
unfolding name_lookup
keycode_of_v = refl

plain_shift : vk_to_name 0x10 ≡ some "ShiftLeft"
unfolding vk_to_name ea_share.Keys.code_insert
plain_shift = refl

captured_names_mapped_example : IsInjectable "ShiftLeft"
captured_names_mapped_example = captured_names_mapped 0x10 "ShiftLeft" (inl plain_shift)

-- Two screens side by side, the primary one on the right.
abbrev desktop : Bounds
desktop = record { x = negsuc 1919; y = pos 0; w = pos 3840; h = pos 1080 }

abbrev at_right : Point
at_right = record { px = pos 1919; py = pos 540 }

reaches_right : edge_reached rational Edge.right desktop at_right ≡ some (frac (pos 540) 1079)
unfolding edge_reached ◌+ℤ◌ ◌*ℤ◌ clamp01 sub32 ea_share.Base.◌-ℤ◌ ea_share.Base.add32
reaches_right = refl
