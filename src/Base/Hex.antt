-- ===== src/Base/Hex.antt =====
-- The digits of a number, as the text routines of Go print them.
use Prim.Native.Nat.{ℕ, zero, suc}
use Prim.Native.String.{String, [] as empty, ◌∷◌ as cons}

-- A text behind the digit of a number.
unfoldable pub digit : ℕ → String → String → String
digit n empty s = s
digit zero (cons c ds) s = cons c s
digit (suc n) (cons c ds) s = digit n ds s
