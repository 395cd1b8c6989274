-- ===== src/Keys.antt =====
-- internal/keys/keys.go: the platform-independent key names of the wire, and the two maps that
-- each platform keeps between them and its own codes.
pub mod Windows
pub mod Linux
pub mod RoundTrip
pub mod Coverage
use text.Mathlib.Text.{◌==◌ as str_eq}
use ea_share.Base.{ℕ, String, ◌==◌, if◌then◌else◌, Option, none, some, List, [], ◌∷◌}

-- `type Name string`.
abbrev pub Name : Type 0
Name = String

-- The names that the package declares.
abbrev pub names : List Name
names =
    "A" ∷ "B" ∷ "C" ∷ "D" ∷ "E" ∷ "F" ∷ "G" ∷ "H" ∷ "I" ∷ "J" ∷ "K" ∷ "L" ∷ "M" ∷ "N" ∷ "O" ∷ "P"
    ∷ "Q" ∷ "R" ∷ "S" ∷ "T" ∷ "U" ∷ "V" ∷ "W" ∷ "X" ∷ "Y" ∷ "Z" ∷ "N0" ∷ "N1" ∷ "N2" ∷ "N3" ∷ "N4"
    ∷ "N5" ∷ "N6" ∷ "N7" ∷ "N8" ∷ "N9" ∷ "F1" ∷ "F2" ∷ "F3" ∷ "F4" ∷ "F5" ∷ "F6" ∷ "F7" ∷ "F8"
    ∷ "F9" ∷ "F10" ∷ "F11" ∷ "F12" ∷ "Enter" ∷ "Escape" ∷ "Space" ∷ "Tab" ∷ "Backspace" ∷ "Delete"
    ∷ "Insert" ∷ "Home" ∷ "End" ∷ "PageUp" ∷ "PageDown" ∷ "CapsLock" ∷ "ArrowLeft" ∷ "ArrowRight"
    ∷ "ArrowUp" ∷ "ArrowDown" ∷ "ShiftLeft" ∷ "ShiftRight" ∷ "ControlLeft" ∷ "ControlRight"
    ∷ "AltLeft" ∷ "AltRight" ∷ "MetaLeft" ∷ "MetaRight" ∷ "Minus" ∷ "Equal" ∷ "LeftBracket"
    ∷ "RightBracket" ∷ "Backslash" ∷ "Semicolon" ∷ "Quote" ∷ "Comma" ∷ "Period" ∷ "Slash" ∷ "Grave"
    ∷ "NumPadAdd" ∷ "NumPadSubtract" ∷ "NumPadMultiply" ∷ "NumPadDivide" ∷ []

-- A Go map with names for its keys, read by `m[k]`; `none` is a missing key.
unfoldable pub name_lookup : Name → List (Name × ℕ) → Option ℕ
name_lookup k [] = none
name_lookup k ((j, v) ∷ m) = if str_eq j k then some v else name_lookup k m

-- A Go map with codes for its keys.
pub code_lookup : ℕ → List (ℕ × Name) → Option Name
code_lookup k [] = none
code_lookup k ((j, v) ∷ m) = if j == k then some v else code_lookup k m

unfoldable pub code_insert : ℕ → Name → List (ℕ × Name) → List (ℕ × Name)
code_insert k v [] = (k, v) ∷ []
code_insert k v ((j, w) ∷ m) = if j == k then (k, v) ∷ m else (j, w) ∷ code_insert k v m

-- The loop `for name, code := range table { m[code] = name }`; the list is the order of the range.
pub invert : List (Name × ℕ) → List (ℕ × Name) → List (ℕ × Name)
invert [] m = m
invert ((n, c) ∷ table) m = invert table (code_insert c n m)

-- A run of assignments `m[code] = name`.
pub assign : List (ℕ × Name) → List (ℕ × Name) → List (ℕ × Name)
assign [] m = m
assign ((c, n) ∷ rest) m = assign rest (code_insert c n m)
