-- ===== src/Float.antt =====
-- Go's float64, as far as the program uses it: an argument of the model. `FloatLaws` is what IEEE 754
-- gives for these operations; `is_nan` stands in the laws only.
use ea_share.Base.{◌≡◌, ◌≢◌, arith, Bool, true, false, ℤ, pos, ◌≤ℤ◌, ◌<ℤ◌, IsInt32, if◌then◌else◌}

pub record Float : Type 1 where
  pub F : Type 0
  pub of_int : ℤ → F
  pub mul : F → F → F
  pub div : F → F → F
  pub lt : F → F → Bool
  pub le : F → F → Bool
  pub is_nan : F → Bool
  -- `int32(v)`: the fraction is discarded.
  pub to_int32 : F → ℤ

-- The constants 0 and 1 of the source.
abbrev pub fzero : (fl : Float) → fl.F
fzero fl = fl.of_int (pos 0)

abbrev pub fone : (fl : Float) → fl.F
fone fl = fl.of_int (pos 1)

-- A fraction of an edge: 0 ≤ r ≤ 1.
abbrev pub InUnit : (fl : Float) → fl.F → Type 0
InUnit fl r = (fl.le (fzero fl) r ≡ true) × (fl.le r (fone fl) ≡ true)

pub record FloatLaws (fl : Float) : Type 0 where
  pub of_int_num : (a : ℤ) → fl.is_nan (fl.of_int a) ≡ false
  -- Only 0 / 0 is not a number.
  pub div_num : (a b : ℤ) → b ≢ pos 0 → fl.is_nan (fl.div (fl.of_int a) (fl.of_int b)) ≡ false
  pub le_of_not_lt :
      (a b : fl.F)
      → fl.is_nan a ≡ false
      → fl.is_nan b ≡ false
      → fl.lt a b ≡ false
      → fl.le b a ≡ true
  pub zero_le_one : fl.le (fzero fl) (fone fl) ≡ true
  pub le_refl_int : (a : ℤ) → fl.le (fl.of_int a) (fl.of_int a) ≡ true
  -- Rounding is monotone and integers are exact, so a fraction of n lies between 0 and n.
  pub scale_bounds :
      (r : fl.F) (n : ℤ)
      → InUnit fl r
      → pos 0 ≤ℤ n
      → (pos 0 ≤ℤ fl.to_int32 (fl.mul r (fl.of_int n)))
        × (fl.to_int32 (fl.mul r (fl.of_int n)) ≤ℤ n)
  pub zero_lt_one : fl.lt (fzero fl) (fone fl) ≡ true
  pub lt_asym : (a b : fl.F) → fl.lt a b ≡ true → fl.lt b a ≡ false
  -- A proper fraction of int32s is at least 2^-31 below 1, which float64 keeps apart.
  pub div_below :
      (a b : ℤ)
      → pos 0 ≤ℤ a
      → a <ℤ b
      → IsInt32 b
      → fl.lt (fl.div (fl.of_int a) (fl.of_int b)) (fone fl) ≡ true
  -- A number below 1 is at least 2^-53 below it, and so is its product with an int32 below that int32.
  pub scale_below :
      (r : fl.F) (n : ℤ)
      → InUnit fl r
      → fl.lt r (fone fl) ≡ true
      → pos 0 <ℤ n
      → IsInt32 n
      → fl.to_int32 (fl.mul r (fl.of_int n)) <ℤ n

-- `clamp01` of cmd/controller/edge_math.go and of internal/capture/capture_windows.go.
unfoldable pub clamp01 : (fl : Float) → fl.F → fl.F
clamp01 fl v = if fl.lt v (fzero fl) then fzero fl else if fl.lt (fone fl) v then fone fl else v

pub clamp01-InUnit :
    (fl : Float) (v : fl.F) → FloatLaws fl → fl.is_nan v ≡ false → InUnit fl (clamp01 fl v)
unfolding clamp01
clamp01-InUnit fl v laws num = ground (
  arith,
  laws.zero_le_one,
  laws.le_refl_int (pos 0),
  laws.le_refl_int (pos 1),
  laws.of_int_num (pos 0),
  laws.of_int_num (pos 1),
  laws.le_of_not_lt v (fzero fl),
  laws.le_of_not_lt (fone fl) v,
)

pub clamp01_below :
    (fl : Float) (v : fl.F)
    → FloatLaws fl
    → fl.lt v (fone fl) ≡ true
    → fl.lt (clamp01 fl v) (fone fl) ≡ true
unfolding clamp01
clamp01_below fl v laws below = ground (arith, laws.zero_lt_one, laws.lt_asym v (fone fl))
