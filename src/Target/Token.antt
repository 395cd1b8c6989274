-- ===== src/Target/Token.antt =====
-- cmd/target/main.go: the token that a target without one makes up, and how it prints it.
pub mod Hex
use Prim.Native.String.{◌++◌ as text_append}
use text.Mathlib.Text.{◌==◌ as str_eq}
use ea_share.Base.{
  ℕ, zero, suc, ◌/◌, ◌%◌, String, Option, none, some, List, [], ◌∷◌, Bytes, if◌then◌else◌, digit,
}

-- `hex.EncodeToString`.
unfoldable pub hex_encode : Bytes → String
hex_encode [] = ""
hex_encode (b ∷ bs) =
    digit (b / 16) "0123456789abcdef" (digit (b % 16) "0123456789abcdef" (hex_encode bs))

abbrev pub token_size : ℕ
token_size = 24

-- What `rand.Read` gave, or its error.
unfoldable pub random_token : Option Bytes → Option String
random_token none = none
random_token (some b) = some (hex_encode b)

-- The lines that announce the token.
unfoldable pub announced : String → List String
announced token =
    "No -token given; generated one for this session:" ∷ "" ∷ text_append "  " token ∷ "" ∷ []

-- The token that `main` goes on with and what it has printed, or its error.
unfoldable pub start_token : String → Option Bytes → Option (String × List String)
start_token given random =
    if str_eq given ""
    then elim (random_token random) [ none ↦ none | some token ↦ some (token, announced token) ]
    else some (given, [])
