-- ===== src/Examples/Rational.antt =====
-- A number type for the examples: fractions and NaN, with exact operations.
use ea_share.Base.{
  ℕ, zero, suc, ◌+◌, ◌*◌, ◌/◌, ◌≤◌, ◌≡◌, ◌≢◌, refl, Bool, true, false, arith, ℤ, pos, negsuc, ◌*ℤ◌,
  ◌≤ℤ◌, ◌<ℤ◌, ◌<◌, IsInt32, leb_ℤ, ltb_ℤ,
}
use native.Mathlib.Nat.{
  mul-lt-mul_of_pos_right, div-lt_iff_lt-mul, mul_comm, div-le_of_le-mul, mul-le-mul_right,
}
use ea_share.Float.{Float, FloatLaws, InUnit}

-- `frac a d` is a / (d + 1).
pub data Rational : Type 0 where
  frac : ℤ → ℕ → Rational
  nan : Rational

abbrev times : Rational → Rational → Rational
times nan b = nan
times (frac a d) nan = nan
times (frac a d) (frac b e) = frac (a *ℤ b) (d * e + d + e)

-- The reciprocal; that of 0 is not a number.
abbrev reciprocal : Rational → Rational
reciprocal nan = nan
reciprocal (frac (pos zero) d) = nan
reciprocal (frac (pos (suc n)) d) = frac (pos (suc d)) n
reciprocal (frac (negsuc n) d) = frac (negsuc d) n

abbrev less : Rational → Rational → Bool
less nan b = false
less (frac a d) nan = false
less (frac a d) (frac b e) = ltb_ℤ (a *ℤ pos (suc e)) (b *ℤ pos (suc d))

abbrev at_most : Rational → Rational → Bool
at_most nan b = false
at_most (frac a d) nan = false
at_most (frac a d) (frac b e) = leb_ℤ (a *ℤ pos (suc e)) (b *ℤ pos (suc d))

abbrev is_not_number : Rational → Bool
is_not_number nan = true
is_not_number (frac a d) = false

abbrev negate : ℕ → ℤ
negate zero = pos 0
negate (suc n) = negsuc n

abbrev truncate : Rational → ℤ
truncate nan = pos 0
truncate (frac (pos n) d) = pos (n / suc d)
truncate (frac (negsuc n) d) = negate (suc n / suc d)

abbrev pub rational : Float
rational = record {
  F = Rational;
  of_int = λ a. frac a 0;
  mul = times;
  div = λ a b. times a (reciprocal b);
  lt = less;
  le = at_most;
  is_nan = is_not_number;
  to_int32 = truncate;
}

div_is_number :
    (a b : ℤ) → b ≢ pos 0 → is_not_number (times (frac a 0) (reciprocal (frac b 0))) ≡ false
div_is_number a (pos zero) h = absurd (h refl)
div_is_number a (pos (suc n)) h = refl
div_is_number a (negsuc n) h = refl

order :
    (a b : Rational)
    → is_not_number a ≡ false
    → is_not_number b ≡ false
    → less a b ≡ false
    → at_most b a ≡ true
order nan b ha hb h = cc
order (frac a d) nan ha hb h = cc
order (frac a d) (frac b e) ha hb h = ground arith

pos_times : (a n : ℕ) → pos a *ℤ pos n ≡ pos (a * n)
unfolding ◌*ℤ◌
pos_times a n = ground arith

unit_numerator : (a d : ℕ) → InUnit rational (frac (pos a) d) → a ≤ suc d
unit_numerator a d u = let le = rw (pos_times a 1, pos_times 1 (suc d)) at u.1 in ground arith

quotient_bound : (a d n : ℕ) → a ≤ suc d → a * n / suc (d * 0 + d + 0) + 0 ≤ n + 0
quotient_bound a d n h =
    let bound : a ≤ suc (d * 0 + d + 0) = omega arith in
    let q = div-le_of_le-mul (suc (d * 0 + d + 0)) (mul-le-mul_right n bound) in omega (arith, q)

not_negative : (a d : ℕ) → leb_ℤ (pos 0 *ℤ pos (suc d)) (negsuc a *ℤ pos 1) ≡ true → ⊥
unfolding ◌*ℤ◌
not_negative a d h = ground arith

scale_bounds :
    (r : Rational) (n : ℤ)
    → InUnit rational r
    → pos 0 ≤ℤ n
    → (pos 0 ≤ℤ truncate (times r (frac n 0))) × (truncate (times r (frac n 0)) ≤ℤ n)
scale_bounds nan n u h = cc
scale_bounds (frac a d) (negsuc n) u h = absurd (omega arith)
scale_bounds (frac (negsuc a) d) (pos n) u h = absurd (not_negative a d u.0)
scale_bounds (frac (pos a) d) (pos n) u h =
    rw (pos_times a n) (omega arith, quotient_bound a d n (unit_numerator a d u))

asym : (a b : Rational) → less a b ≡ true → less b a ≡ false
asym nan b h = cc
asym (frac a d) nan h = cc
asym (frac a d) (frac b e) h = ground arith

below_one :
    (a n : ℕ) → a < suc n → less (times (frac (pos a) 0) (frac (pos 1) n)) (frac (pos 1) 0) ≡ true
unfolding ◌*ℤ◌
below_one a n h = ground arith

div_below :
    (a b : ℤ)
    → pos 0 ≤ℤ a
    → a <ℤ b
    → IsInt32 b
    → less (times (frac a 0) (reciprocal (frac b 0))) (frac (pos 1) 0) ≡ true
div_below (negsuc a) b lo h i = absurd (omega arith)
div_below (pos a) (negsuc b) lo h i = absurd (omega arith)
div_below (pos a) (pos zero) lo h i = absurd (omega arith)
div_below (pos a) (pos (suc n)) lo h i = below_one a n (omega arith)

proper_numerator : (a d : ℕ) → less (frac (pos a) d) (frac (pos 1) 0) ≡ true → a < suc d
proper_numerator a d h = let lt = rw (pos_times a 1, pos_times 1 (suc d)) at h in ground arith

quotient_below : (a d n : ℕ) → a < suc d → 0 < n → a * n / suc (d * 0 + d + 0) < n
quotient_below a d n h p =
    let k : a < suc (d * 0 + d + 0) = omega arith in
    let positive : 0 < suc (d * 0 + d + 0) = omega arith in
    let m = mul-lt-mul_of_pos_right k p in
    (div-lt_iff_lt-mul positive).1 (omega (arith, m, mul_comm n (suc (d * 0 + d + 0))))

scale_below :
    (r : Rational) (n : ℤ)
    → InUnit rational r
    → less r (frac (pos 1) 0) ≡ true
    → pos 0 <ℤ n
    → IsInt32 n
    → truncate (times r (frac n 0)) <ℤ n
scale_below nan n u b h i = cc
scale_below (frac a d) (negsuc n) u b h i = absurd (omega arith)
scale_below (frac (negsuc a) d) (pos n) u b h i = absurd (not_negative a d u.0)
scale_below (frac (pos a) d) (pos n) u b h i =
    rw (pos_times a n) (omega (arith, quotient_below a d n (proper_numerator a d b) (omega arith)))

pub rational-FloatLaws : FloatLaws rational
unfolding ◌*ℤ◌
rational-FloatLaws = record {
  of_int_num = λ a. refl;
  div_num = div_is_number;
  le_of_not_lt = order;
  zero_le_one = refl;
  le_refl_int = λ a. ground arith;
  scale_bounds = scale_bounds;
  zero_lt_one = refl;
  lt_asym = asym;
  div_below = div_below;
  scale_below = scale_below;
}
