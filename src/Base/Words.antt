-- ===== src/Base/Words.antt =====
-- Go's fixed-width integers. An int32 is the integer that it stands for, with `wrap32` after every
-- sum; a uint32, a uint64 and a byte are natural numbers. A byte slice is a list of numbers.
use Prim.Native.Nat.{ℕ, ◌+◌, ◌-◌, ◌*◌, ◌/◌, ◌%◌, ◌^◌, ◌<◌}
use mathlib.Core.Path.{◌≡◌, refl}
use mathlib.Core.List.{List, [], ◌∷◌, ◌++◌}
use native.Mathlib.Omega.{arith}
use ea_share.Base.Tests.{ltb, if◌then◌else◌}
use ea_share.Base.Lists.{All, length}
use ea_share.Base.Int.{ℤ, pos, negsuc, ◌+ℤ◌, ◌-ℤ◌, ◌≤ℤ◌}

abbrev pub Bytes : Type 0
Bytes = List ℕ

abbrev pub IsByte : ℕ → Type 0
IsByte b = b < 256

abbrev pub IsU32 : ℕ → Type 0
IsU32 n = n < 2 ^ 32

abbrev pub IsU64 : ℕ → Type 0
IsU64 n = n < 2 ^ 64

-- The range of int32.
abbrev pub IsInt32 : ℤ → Type 0
IsInt32 a = (negsuc 2147483647 ≤ℤ a) × (a ≤ℤ pos 2147483647)

-- `uint32(x)` of an integer: two's complement.
abbrev pub uint32 : ℤ → ℕ
uint32 (pos n) = n % 2 ^ 32
uint32 (negsuc n) = 2 ^ 32 - 1 - n % 2 ^ 32

-- `int32(u)` of a uint32.
abbrev pub int32 : ℕ → ℤ
int32 u = if ltb u (2 ^ 31) then pos u else negsuc (2 ^ 32 - 1 - u)

abbrev pub wrap32 : ℤ → ℤ
wrap32 a = int32 (uint32 a)

-- Go's `a + b` and `a - b` at int32.
unfoldable pub add32 : ℤ → ℤ → ℤ
add32 a b = wrap32 (a +ℤ b)

unfoldable pub sub32 : ℤ → ℤ → ℤ
sub32 a b = wrap32 (a -ℤ b)

pub int32-uint32 : (a : ℤ) → IsInt32 a → int32 (uint32 a) ≡ a
int32-uint32 a h = ground arith

pub uint32-int32 : (u : ℕ) → IsU32 u → uint32 (int32 u) ≡ u
uint32-int32 u h = ground arith

pub uint32-IsU32 : (a : ℤ) → IsU32 (uint32 a)
uint32-IsU32 (pos n) = omega arith
uint32-IsU32 (negsuc n) = omega arith

pub int32-IsInt32 : (u : ℕ) → IsU32 u → IsInt32 (int32 u)
int32-IsInt32 u h = ground arith

pub add32-IsInt32 : (a b : ℤ) → IsInt32 (add32 a b)
unfolding add32
add32-IsInt32 a b = int32-IsInt32 (uint32 (a +ℤ b)) (uint32-IsU32 (a +ℤ b))

pub sub32-IsInt32 : (a b : ℤ) → IsInt32 (sub32 a b)
unfolding sub32
sub32-IsInt32 a b = int32-IsInt32 (uint32 (a -ℤ b)) (uint32-IsU32 (a -ℤ b))

-- Where the true sum or difference fits, the int32 operation gives it.
pub add32_exact : (a b : ℤ) → IsInt32 (a +ℤ b) → add32 a b ≡ a +ℤ b
unfolding add32
add32_exact a b h = int32-uint32 (a +ℤ b) h

pub sub32_exact : (a b : ℤ) → IsInt32 (a -ℤ b) → sub32 a b ≡ a -ℤ b
unfolding sub32
sub32_exact a b h = int32-uint32 (a -ℤ b) h

-- `binary.BigEndian.PutUint32` and `PutUint64`, and the reads that undo them.
unfoldable pub put_uint32 : ℕ → Bytes
put_uint32 n = (n / 2 ^ 24 % 256) ∷ (n / 2 ^ 16 % 256) ∷ (n / 2 ^ 8 % 256) ∷ (n % 256) ∷ []

unfoldable pub put_uint64 : ℕ → Bytes
unfolding put_uint32
put_uint64 n = put_uint32 (n / 2 ^ 32) ++ put_uint32 (n % 2 ^ 32)

unfoldable pub uint32_at : Bytes → ℕ
uint32_at (a ∷ b ∷ c ∷ d ∷ _) = a * 2 ^ 24 + b * 2 ^ 16 + c * 2 ^ 8 + d
uint32_at _ = 0

unfoldable pub uint64_at : Bytes → ℕ
unfolding uint32_at
uint64_at (a ∷ b ∷ c ∷ d ∷ rest) = uint32_at (a ∷ b ∷ c ∷ d ∷ []) * 2 ^ 32 + uint32_at rest
uint64_at _ = 0

pub uint32_at-put_uint32 : (n : ℕ) (rest : Bytes) → IsU32 n → uint32_at (put_uint32 n ++ rest) ≡ n
unfolding uint32_at put_uint32
uint32_at-put_uint32 n rest h = omega arith

pub uint32_at-put_uint32_self : (n : ℕ) → IsU32 n → uint32_at (put_uint32 n) ≡ n
unfolding uint32_at put_uint32
uint32_at-put_uint32_self n h = omega arith

pub uint64_at-put_uint64_self : (n : ℕ) → IsU64 n → uint64_at (put_uint64 n) ≡ n
unfolding uint64_at put_uint64
uint64_at-put_uint64_self n h = omega arith

-- Four bytes give a uint32.
pub uint32_at-IsU32 : (p : Bytes) → All IsByte p → IsU32 (uint32_at p)
unfolding uint32_at
uint32_at-IsU32 (a ∷ b ∷ c ∷ d ∷ _) h = omega arith
uint32_at-IsU32 [] h = omega arith
uint32_at-IsU32 (a ∷ []) h = omega arith
uint32_at-IsU32 (a ∷ b ∷ []) h = omega arith
uint32_at-IsU32 (a ∷ b ∷ c ∷ []) h = omega arith

-- Four bytes are the encoding of the number that they hold, and so are eight.
pub put_uint32-uint32_at : (p : Bytes) → All IsByte p → length p ≡ 4 → put_uint32 (uint32_at p) ≡ p
unfolding uint32_at put_uint32
put_uint32-uint32_at (a ∷ b ∷ c ∷ d ∷ []) h l = ground arith
put_uint32-uint32_at (a ∷ b ∷ c ∷ d ∷ e ∷ p) h l = absurd (omega arith)
put_uint32-uint32_at [] h l = absurd (omega arith)
put_uint32-uint32_at (a ∷ []) h l = absurd (omega arith)
put_uint32-uint32_at (a ∷ b ∷ []) h l = absurd (omega arith)
put_uint32-uint32_at (a ∷ b ∷ c ∷ []) h l = absurd (omega arith)

uint64_halves : (m n : ℕ) → IsU32 n → put_uint64 (m * 2 ^ 32 + n) ≡ put_uint32 m ++ put_uint32 n
unfolding put_uint64
uint64_halves m n h =
    let hi : (m * 2 ^ 32 + n) / 2 ^ 32 ≡ m = omega arith in
    let lo : (m * 2 ^ 32 + n) % 2 ^ 32 ≡ n = omega arith in rw (hi, lo)

pub put_uint64-uint64_at : (p : Bytes) → All IsByte p → length p ≡ 8 → put_uint64 (uint64_at p) ≡ p
unfolding uint64_at
put_uint64-uint64_at (a ∷ b ∷ c ∷ d ∷ p) (ha, (hb, (hc, (hd, hp)))) l = rw (
  uint64_halves (uint32_at (a ∷ b ∷ c ∷ d ∷ [])) (uint32_at p) (uint32_at-IsU32 p hp),
  put_uint32-uint32_at (a ∷ b ∷ c ∷ d ∷ []) (ha, (hb, (hc, (hd, tt)))) refl,
  put_uint32-uint32_at p hp (omega arith),
)
put_uint64-uint64_at [] h l = absurd (omega arith)
put_uint64-uint64_at (a ∷ []) h l = absurd (omega arith)
put_uint64-uint64_at (a ∷ b ∷ []) h l = absurd (omega arith)
put_uint64-uint64_at (a ∷ b ∷ c ∷ []) h l = absurd (omega arith)

pub uint64_at-put_uint64 : (n : ℕ) (rest : Bytes) → IsU64 n → uint64_at (put_uint64 n ++ rest) ≡ n
unfolding uint64_at put_uint64
uint64_at-put_uint64 n rest h = omega arith

pub put_uint32-IsByte : (n : ℕ) → All IsByte (put_uint32 n)
unfolding put_uint32
put_uint32-IsByte n = omega arith

pub put_uint64-IsByte : (n : ℕ) → All IsByte (put_uint64 n)
unfolding put_uint64
put_uint64-IsByte n = omega arith

pub length-put_uint32 : (n : ℕ) → length (put_uint32 n) ≡ 4
unfolding put_uint32
length-put_uint32 n = refl
