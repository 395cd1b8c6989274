-- ===== src/Keys/Linux.antt =====
-- internal/keys/keys_linux.go: names and Linux input-event codes. The constants are put in.
use ea_share.Base.{ℕ, Option, List, [], ◌∷◌}
use ea_share.Keys.{Name, invert, assign, code_lookup}

abbrev pub name_to_keycode : List (Name × ℕ)
name_to_keycode =
    ("A", 30)
    ∷ ("B", 48)
    ∷ ("C", 46)
    ∷ ("D", 32)
    ∷ ("E", 18)
    ∷ ("F", 33)
    ∷ ("G", 34)
    ∷ ("H", 35)
    ∷ ("I", 23)
    ∷ ("J", 36)
    ∷ ("K", 37)
    ∷ ("L", 38)
    ∷ ("M", 50)
    ∷ ("N", 49)
    ∷ ("O", 24)
    ∷ ("P", 25)
    ∷ ("Q", 16)
    ∷ ("R", 19)
    ∷ ("S", 31)
    ∷ ("T", 20)
    ∷ ("U", 22)
    ∷ ("V", 47)
    ∷ ("W", 17)
    ∷ ("X", 45)
    ∷ ("Y", 21)
    ∷ ("Z", 44)
    ∷ ("N0", 11)
    ∷ ("N1", 2)
    ∷ ("N2", 3)
    ∷ ("N3", 4)
    ∷ ("N4", 5)
    ∷ ("N5", 6)
    ∷ ("N6", 7)
    ∷ ("N7", 8)
    ∷ ("N8", 9)
    ∷ ("N9", 10)
    ∷ ("F1", 59)
    ∷ ("F2", 60)
    ∷ ("F3", 61)
    ∷ ("F4", 62)
    ∷ ("F5", 63)
    ∷ ("F6", 64)
    ∷ ("F7", 65)
    ∷ ("F8", 66)
    ∷ ("F9", 67)
    ∷ ("F10", 68)
    ∷ ("F11", 87)
    ∷ ("F12", 88)
    ∷ ("Enter", 28)
    ∷ ("Escape", 1)
    ∷ ("Space", 57)
    ∷ ("Tab", 15)
    ∷ ("Backspace", 14)
    ∷ ("Delete", 111)
    ∷ ("Insert", 110)
    ∷ ("Home", 102)
    ∷ ("End", 107)
    ∷ ("PageUp", 104)
    ∷ ("PageDown", 109)
    ∷ ("CapsLock", 58)
    ∷ ("ArrowLeft", 105)
    ∷ ("ArrowRight", 106)
    ∷ ("ArrowUp", 103)
    ∷ ("ArrowDown", 108)
    ∷ ("ShiftLeft", 42)
    ∷ ("ShiftRight", 54)
    ∷ ("ControlLeft", 29)
    ∷ ("ControlRight", 97)
    ∷ ("AltLeft", 56)
    ∷ ("AltRight", 100)
    ∷ ("MetaLeft", 125)
    ∷ ("MetaRight", 126)
    ∷ ("Minus", 12)
    ∷ ("Equal", 13)
    ∷ ("LeftBracket", 26)
    ∷ ("RightBracket", 27)
    ∷ ("Backslash", 43)
    ∷ ("Semicolon", 39)
    ∷ ("Quote", 40)
    ∷ ("Comma", 51)
    ∷ ("Period", 52)
    ∷ ("Slash", 53)
    ∷ ("Grave", 41)
    ∷ ("NumPadAdd", 78)
    ∷ ("NumPadSubtract", 74)
    ∷ ("NumPadMultiply", 55)
    ∷ ("NumPadDivide", 98)
    ∷ []

-- The assignments of `init` after the range loop.
abbrev pub keycode_to_name_extra : List (ℕ × Name)
keycode_to_name_extra =
    (82, "N0")
    ∷ (79, "N1")
    ∷ (80, "N2")
    ∷ (81, "N3")
    ∷ (75, "N4")
    ∷ (76, "N5")
    ∷ (77, "N6")
    ∷ (71, "N7")
    ∷ (72, "N8")
    ∷ (73, "N9")
    ∷ (83, "Period")
    ∷ []

-- `init`, with the range over the map in the order `order`: Go leaves that order open.
unfoldable pub keycode_to_name_in : List (Name × ℕ) → List (ℕ × Name)
unfolding invert assign
keycode_to_name_in order = assign keycode_to_name_extra (invert order [])

unfoldable pub keycode_to_name : ℕ → Option Name
unfolding keycode_to_name_in code_lookup
keycode_to_name code = code_lookup code (keycode_to_name_in name_to_keycode)
