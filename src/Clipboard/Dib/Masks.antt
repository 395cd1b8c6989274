-- ===== src/Clipboard/Dib/Masks.antt =====
-- internal/clipboard/clipboard.go: `v & mask` for the default masks of a device-independent bitmap.
use Prim.Native.Nat.{bit_and, bit_and-bitwise, digits, min}
use ea_share.Base.{ℕ, zero, suc, ◌+◌, ◌*◌, ◌/◌, ◌%◌, ◌≤◌, ◌≡◌, refl, sym, ap, ◌∙◌, arith}
use ea_share.Clipboard.Dib.{channel, trailing_zeros}

abbrev and_digits : ℕ → ℕ → ℕ → ℕ
and_digits = digits (λ b. zero) min

and_digits-zero : (n b : ℕ) → and_digits n 0 b ≡ 0
and_digits-zero zero b = refl
and_digits-zero (suc n) b = refl

-- One digit, also of 0.
and_digits-suc :
    (n a b : ℕ) → and_digits (suc n) a b ≡ and_digits n (a / 2) (b / 2) * 2 + min (a % 2) (b % 2)
and_digits-suc n zero b = omega (arith, and_digits-zero n (b / 2))
and_digits-suc n (suc a) b = refl

and_digits-fuel : (n k a b : ℕ) → a ≤ n → a ≤ k → and_digits n a b ≡ and_digits k a b
and_digits-fuel zero k a b h l = let e : a ≡ 0 = omega arith in rw e (sym (and_digits-zero k b))
and_digits-fuel (suc n) zero a b h l =
    let e : a ≡ 0 = omega arith in rw e (and_digits-zero (suc n) b)
and_digits-fuel (suc n) (suc k) a b h l =
    let rest = and_digits-fuel n k (a / 2) (b / 2) (omega arith) (omega arith) in
    and_digits-suc n a b ∙ ap (λ d. d * 2 + min (a % 2) (b % 2)) rest ∙ sym (and_digits-suc k a b)

bit_and_digits : (a b : ℕ) → bit_and a b ≡ and_digits a a b
bit_and_digits a b = bit_and-bitwise a b

bit_and-step : (a b : ℕ) → bit_and a b ≡ bit_and (a / 2) (b / 2) * 2 + min (a % 2) (b % 2)
bit_and-step a b =
    let more = and_digits-fuel a (suc a) a b (omega arith) (omega arith) in
    let less = and_digits-fuel a (a / 2) (a / 2) (b / 2) (omega arith) (omega arith) in
    bit_and_digits a b
    ∙ more
    ∙ and_digits-suc a a b
    ∙ ap (λ d. d * 2 + min (a % 2) (b % 2)) (less ∙ sym (bit_and_digits (a / 2) (b / 2)))

bit_and-nil : (a : ℕ) → bit_and a 0 ≡ 0
bit_and-nil a = bit_and_digits a 0 ∙ go a a
  where
    go : (n a : ℕ) → and_digits n a 0 ≡ 0
    go zero a = refl
    go (suc n) a = and_digits-suc n a 0 ∙ omega (arith, go n (a / 2))

bit_and-even : (a b c : ℕ) → c ≡ 2 * b → bit_and a c ≡ 2 * bit_and (a / 2) b
bit_and-even a b c e =
    let half : c / 2 ≡ b = omega arith in bit_and-step a c ∙ rw half (omega arith)

bit_and-odd : (a b c : ℕ) → c ≡ 2 * b + 1 → bit_and a c ≡ 2 * bit_and (a / 2) b + a % 2
bit_and-odd a b c e = let half : c / 2 ≡ b = omega arith in bit_and-step a c ∙ rw half (omega arith)

bit_and-0xff : (v : ℕ) → bit_and v 0xff ≡ v % 256
bit_and-0xff v = omega (
  arith,
  bit_and-odd v 127 255 refl,
  bit_and-odd (v / 2) 63 127 refl,
  bit_and-odd (v / 2 / 2) 31 63 refl,
  bit_and-odd (v / 2 / 2 / 2) 15 31 refl,
  bit_and-odd (v / 2 / 2 / 2 / 2) 7 15 refl,
  bit_and-odd (v / 2 / 2 / 2 / 2 / 2) 3 7 refl,
  bit_and-odd (v / 2 / 2 / 2 / 2 / 2 / 2) 1 3 refl,
  bit_and-odd (v / 2 / 2 / 2 / 2 / 2 / 2 / 2) 0 1 refl,
  bit_and-nil (v / 2 / 2 / 2 / 2 / 2 / 2 / 2 / 2),
)

-- A mask that ends in eight zeros.
bit_and-shift : (v m c : ℕ) → c ≡ 256 * m → bit_and v c ≡ 256 * bit_and (v / 256) m
bit_and-shift v m c e =
    let eighth : v / 256 ≡ v / 2 / 2 / 2 / 2 / 2 / 2 / 2 / 2 = omega arith in
    rw eighth (
      omega (
        arith,
        bit_and-even v (128 * m) c (omega arith),
        bit_and-even (v / 2) (64 * m) (128 * m) (omega arith),
        bit_and-even (v / 2 / 2) (32 * m) (64 * m) (omega arith),
        bit_and-even (v / 2 / 2 / 2) (16 * m) (32 * m) (omega arith),
        bit_and-even (v / 2 / 2 / 2 / 2) (8 * m) (16 * m) (omega arith),
        bit_and-even (v / 2 / 2 / 2 / 2 / 2) (4 * m) (8 * m) (omega arith),
        bit_and-even (v / 2 / 2 / 2 / 2 / 2 / 2) (2 * m) (4 * m) (omega arith),
        bit_and-even (v / 2 / 2 / 2 / 2 / 2 / 2 / 2) m (2 * m) (omega arith),
      ))

-- The three default masks pick out three bytes.
pub channel-blue : (v : ℕ) → channel v 0x000000FF ≡ v % 256
unfolding channel trailing_zeros
channel-blue v = omega (arith, bit_and-0xff v)

pub channel-green : (v : ℕ) → channel v 0x0000FF00 ≡ v / 256 % 256
unfolding channel trailing_zeros
channel-green v = omega (arith, bit_and-shift v 0xff 0xff00 refl, bit_and-0xff (v / 256))

pub channel-red : (v : ℕ) → channel v 0x00FF0000 ≡ v / 65536 % 256
unfolding channel trailing_zeros
channel-red v =
    let twice : v / 256 / 256 ≡ v / 65536 = omega arith in
    rw (sym twice) (
      omega (
        arith,
        bit_and-shift v 0xff00 0xff0000 refl,
        bit_and-shift (v / 256) 0xff 0xff00 refl,
        bit_and-0xff (v / 256 / 256),
      ))
