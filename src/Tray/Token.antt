-- ===== src/Tray/Token.antt =====
-- cmd/tray/menu.go: the test for the token that a target prints.
use Prim.Native.String.{String, [], ◌∷◌, len}
use Prim.Native.Char.{Char, code}
use mathlib.Core.Bool.{Bool, true, false, not, ◌||◌}
use ea_share.Base.{ltb, ◌==◌, if◌then◌else◌}

-- `strings.ContainsRune`.
unfoldable pub contains_rune : String → Char → Bool
contains_rune [] r = false
contains_rune (c ∷ s) r = code c == code r || contains_rune s r

-- The loop of `isLikelyToken`.
unfoldable pub all_hex : String → Bool
all_hex [] = true
all_hex (r ∷ s) =
    let rest = all_hex s in if not (contains_rune "0123456789abcdefABCDEF" r) then false else rest

unfoldable pub is_likely_token : String → Bool
is_likely_token s = if ltb (len s) 16 then false else all_hex s
