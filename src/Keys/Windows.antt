-- ===== src/Keys/Windows.antt =====
-- internal/keys/keys_windows.go: names and Windows virtual-key codes. The constants are put in.
use ea_share.Base.{ℕ, Option, List, [], ◌∷◌}
use ea_share.Keys.{Name, invert, assign, code_lookup}

abbrev pub name_to_vk : List (Name × ℕ)
name_to_vk =
    ("A", 0x41)
    ∷ ("B", 0x42)
    ∷ ("C", 0x43)
    ∷ ("D", 0x44)
    ∷ ("E", 0x45)
    ∷ ("F", 0x46)
    ∷ ("G", 0x47)
    ∷ ("H", 0x48)
    ∷ ("I", 0x49)
    ∷ ("J", 0x4A)
    ∷ ("K", 0x4B)
    ∷ ("L", 0x4C)
    ∷ ("M", 0x4D)
    ∷ ("N", 0x4E)
    ∷ ("O", 0x4F)
    ∷ ("P", 0x50)
    ∷ ("Q", 0x51)
    ∷ ("R", 0x52)
    ∷ ("S", 0x53)
    ∷ ("T", 0x54)
    ∷ ("U", 0x55)
    ∷ ("V", 0x56)
    ∷ ("W", 0x57)
    ∷ ("X", 0x58)
    ∷ ("Y", 0x59)
    ∷ ("Z", 0x5A)
    ∷ ("N0", 0x30)
    ∷ ("N1", 0x31)
    ∷ ("N2", 0x32)
    ∷ ("N3", 0x33)
    ∷ ("N4", 0x34)
    ∷ ("N5", 0x35)
    ∷ ("N6", 0x36)
    ∷ ("N7", 0x37)
    ∷ ("N8", 0x38)
    ∷ ("N9", 0x39)
    ∷ ("F1", 0x70)
    ∷ ("F2", 0x71)
    ∷ ("F3", 0x72)
    ∷ ("F4", 0x73)
    ∷ ("F5", 0x74)
    ∷ ("F6", 0x75)
    ∷ ("F7", 0x76)
    ∷ ("F8", 0x77)
    ∷ ("F9", 0x78)
    ∷ ("F10", 0x79)
    ∷ ("F11", 0x7A)
    ∷ ("F12", 0x7B)
    ∷ ("Enter", 0x0D)
    ∷ ("Escape", 0x1B)
    ∷ ("Space", 0x20)
    ∷ ("Tab", 0x09)
    ∷ ("Backspace", 0x08)
    ∷ ("Delete", 0x2E)
    ∷ ("Insert", 0x2D)
    ∷ ("Home", 0x24)
    ∷ ("End", 0x23)
    ∷ ("PageUp", 0x21)
    ∷ ("PageDown", 0x22)
    ∷ ("CapsLock", 0x14)
    ∷ ("ArrowLeft", 0x25)
    ∷ ("ArrowRight", 0x27)
    ∷ ("ArrowUp", 0x26)
    ∷ ("ArrowDown", 0x28)
    ∷ ("ShiftLeft", 0xA0)
    ∷ ("ShiftRight", 0xA1)
    ∷ ("ControlLeft", 0xA2)
    ∷ ("ControlRight", 0xA3)
    ∷ ("AltLeft", 0xA4)
    ∷ ("AltRight", 0xA5)
    ∷ ("MetaLeft", 0x5B)
    ∷ ("MetaRight", 0x5C)
    ∷ ("Minus", 0xBD)
    ∷ ("Equal", 0xBB)
    ∷ ("LeftBracket", 0xDB)
    ∷ ("RightBracket", 0xDD)
    ∷ ("Backslash", 0xDC)
    ∷ ("Semicolon", 0xBA)
    ∷ ("Quote", 0xDE)
    ∷ ("Comma", 0xBC)
    ∷ ("Period", 0xBE)
    ∷ ("Slash", 0xBF)
    ∷ ("Grave", 0xC0)
    ∷ ("NumPadMultiply", 0x6A)
    ∷ ("NumPadAdd", 0x6B)
    ∷ ("NumPadSubtract", 0x6D)
    ∷ ("NumPadDivide", 0x6F)
    ∷ []

-- The assignments of `init` after the range loop.
abbrev pub vk_to_name_extra : List (ℕ × Name)
vk_to_name_extra =
    (0x10, "ShiftLeft")
    ∷ (0x11, "ControlLeft")
    ∷ (0x12, "AltLeft")
    ∷ (0x60, "N0")
    ∷ (0x61, "N1")
    ∷ (0x62, "N2")
    ∷ (0x63, "N3")
    ∷ (0x64, "N4")
    ∷ (0x65, "N5")
    ∷ (0x66, "N6")
    ∷ (0x67, "N7")
    ∷ (0x68, "N8")
    ∷ (0x69, "N9")
    ∷ (0x6E, "Period")
    ∷ []

-- `init`, with the range over the map in the order `order`: Go leaves that order open.
unfoldable pub vk_to_name_in : List (Name × ℕ) → List (ℕ × Name)
unfolding invert assign
vk_to_name_in order = assign vk_to_name_extra (invert order [])

unfoldable pub vk_to_name : ℕ → Option Name
unfolding vk_to_name_in code_lookup
vk_to_name code = code_lookup code (vk_to_name_in name_to_vk)
