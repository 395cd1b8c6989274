-- ===== src/Inject/Coverage.antt =====
-- What one machine captures, the other can inject.
use ea_share.Base.{
  ℕ, ◌*◌, ◌%◌, ◌^◌, ◌≡◌, ◌⊎◌, ◌≤ℤ◌, refl, Bool, some, if◌then◌else◌, ℤ, pos, negsuc, arith, ◌*ℤ◌,
}
use ea_share.Keys.{Name}
use ea_share.Keys.Windows.{vk_to_name}
use ea_share.Keys.Linux.{keycode_to_name, name_to_keycode}
use ea_share.Keys.RoundTrip.{keycode_to_name-name_to_keycode}
use ea_share.Keys.Coverage.{captured_names_mapped}
use ea_share.Inject.Windows
use ea_share.Inject.Windows.{KeyInput}
use ea_share.Inject.Linux
use ea_share.Inject.Linux.{Uinput, key_down, key_up}
use ea_share.Capture.Windows.{wheel_notches}

-- A key that either platform captured is injected on Linux as the press or the release of one code, and
-- that code is captured on Linux as the same key.
pub key-captured :
    (code : ℕ) (n : Name) (down : Bool)
    → (vk_to_name code ≡ some n) ⊎ (keycode_to_name code ≡ some n)
    → (c : ℕ) × (Linux.key n down ≡ some (if down then key_down c else key_up c))
      × (keycode_to_name c ≡ some n)
unfolding Linux.key keycode_to_name
key-captured code n down h =
    let (w, (c, l)) = captured_names_mapped code n h in
    (c, rw (l, Linux.key) refl, keycode_to_name-name_to_keycode name_to_keycode n c (λ m d. refl) l)

-- A scroll that fits the 16 bits of a wheel message: the low half of what the Windows injector passes to
-- SendInput, placed where a hook reads it, is captured as the same number of notches.
pub wheel_notches-mouse_wheel :
    (amount : ℤ)
    → negsuc 272 ≤ℤ amount
    → amount ≤ℤ pos 273
    → wheel_notches ((Windows.mouse_wheel amount).mouse_data % 2 ^ 16 * 2 ^ 16) ≡ amount
unfolding wheel_notches Windows.mouse_wheel ◌*ℤ◌
wheel_notches-mouse_wheel (pos n) lo hi = ground arith
wheel_notches-mouse_wheel (negsuc n) lo hi = ground arith
