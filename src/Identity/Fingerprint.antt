-- ===== src/Identity/Fingerprint.antt =====
-- internal/tlsutil/tlsutil.go: the text of a fingerprint tells the digest.
use Prim.Native.String.{[] as empty, ◌∷◌ as cons, ◌++◌ as text_append}
use Prim.Native.Char.{Char, code}
use text.Mathlib.TextLemmas.{cons-append, nil-append}
use ea_share.Base.{
  ℕ, zero, suc, ◌+◌, ◌-◌, ◌*◌, ◌/◌, ◌%◌, ◌<◌, ◌==◌, ◌≡◌, ◌↔◌, refl, sym, ◌∙◌, ap, String, Bool,
  true, ◌&&◌, [], ◌∷◌, map, All, Bytes, IsByte, arith, digit, leb, if◌then◌else◌,
}
use ea_share.Identity.{Crypto, hex_part, joined, fingerprint}

-- The number of a digit, and the bytes that a text of pairs with colons between them stands for.
abbrev value : Char → ℕ
value c = if leb (code c) 57 then code c - 48 else code c - 55

read_pairs : String → Bytes
read_pairs (cons a (cons b (cons colon s))) = (value a * 16 + value b) ∷ read_pairs s
read_pairs (cons a (cons b empty)) = (value a * 16 + value b) ∷ []
read_pairs _ = []

-- The digit at a place in a text that has one there.
digit_at : ℕ → String → Char → Char
digit_at n empty c = c
digit_at zero (cons d ds) c = d
digit_at (suc n) (cons d ds) c = digit_at n ds c

size : String → ℕ
size empty = 0
size (cons c s) = suc (size s)

digit-cons :
    (n : ℕ) (ds s : String) (c : Char) → n < size ds → digit n ds s ≡ cons (digit_at n ds c) s
unfolding digit digit_at size
digit-cons n empty s c h = absurd (omega arith)
digit-cons zero (cons d ds) s c h = refl
digit-cons (suc n) (cons d ds) s c h = digit-cons n ds s c (omega arith)

-- Every digit has its value.
all_values : ℕ → Char → Bool
all_values zero c = true
all_values (suc n) c = value (digit_at n "0123456789ABCDEF" c) == n && all_values n c

value-digit :
    (m n : ℕ) (c : Char)
    → all_values m c ≡ true
    → n < m
    → value (digit_at n "0123456789ABCDEF" c) ≡ n
unfolding all_values
value-digit zero n c h l = absurd (omega arith)
value-digit (suc m) n c h l = ground (arith, value-digit m n c)

-- The two digits of a byte.
high : ℕ → Char
high b = digit_at (b / 16) "0123456789ABCDEF" "0"

low : ℕ → Char
low b = digit_at (b % 16) "0123456789ABCDEF" "0"

hex_part-cons : (b : ℕ) → IsByte b → hex_part b ≡ cons (high b) (cons (low b) empty)
unfolding hex_part high low size
hex_part-cons b h =
    rw (digit-cons (b % 16) "0123456789ABCDEF" "" "0" (omega arith))
      (digit-cons (b / 16) "0123456789ABCDEF" (cons (low b) empty) "0" (omega arith))

byte_of_digits : (b : ℕ) → IsByte b → value (high b) * 16 + value (low b) ≡ b
unfolding high low all_values digit_at
byte_of_digits b h = omega (
  arith,
  value-digit 16 (b / 16) "0" refl (omega arith),
  value-digit 16 (b % 16) "0" refl (omega arith),
)

read_pairs-pair :
    (x y colon : Char) (s : String)
    → read_pairs (text_append (cons x (cons y empty)) (text_append (cons colon empty) s))
      ≡ (value x * 16 + value y) ∷ read_pairs s
unfolding read_pairs
read_pairs-pair x y colon s =
    rw
      (
        cons-append x (cons y empty) (text_append (cons colon empty) s),
        cons-append y empty (text_append (cons colon empty) s),
        nil-append (text_append (cons colon empty) s),
        cons-append colon empty s,
        nil-append s,
      )
      refl

read_pairs-joined : (bs : Bytes) → All IsByte bs → read_pairs (joined (map hex_part bs)) ≡ bs
unfolding read_pairs joined
read_pairs-joined [] h = refl
read_pairs-joined (b ∷ []) (l, h) = rw (hex_part-cons b l) (ap (λ x. x ∷ []) (byte_of_digits b l))
read_pairs-joined (b ∷ d ∷ bs) (l, h) =
    rw (hex_part-cons b l, read_pairs-pair (high b) (low b) ":" (joined (map hex_part (d ∷ bs))))
      (rw (byte_of_digits b l, read_pairs-joined (d ∷ bs) h) refl)

-- Two certificates have the same fingerprint exactly if they have the same digest.
pub fingerprint_iff :
    (c : Crypto) (der other : Bytes)
    → All IsByte (c.sum256 der)
    → All IsByte (c.sum256 other)
    → fingerprint c der ≡ fingerprint c other ↔ c.sum256 der ≡ c.sum256 other
unfolding fingerprint
fingerprint_iff c der other h k = (
  λ e.
      sym (read_pairs-joined (c.sum256 der) h)
      ∙ ap read_pairs e
      ∙ read_pairs-joined (c.sum256 other) k,
  λ e. ap (λ digest. joined (map hex_part digest)) e,
)
