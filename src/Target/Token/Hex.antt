-- ===== src/Target/Token/Hex.antt =====
-- cmd/target/main.go: a generated token is one that the tray takes for a token.
use Prim.Native.String.{[] as empty, ◌∷◌ as cons, len}
use Prim.Native.String.len.{cons as len-cons}
use Prim.Native.Char.{len_utf8}
use ea_share.Base.{
  ℕ, zero, suc, ◌+◌, ◌*◌, ◌/◌, ◌%◌, ◌<◌, ◌≤◌, ◌==◌, ◌≡◌, refl, String, Bool, true, false, ◌&&◌, [],
  ◌∷◌, All, Bytes, IsByte, length, arith, ltb, digit,
}
use ea_share.Tray.Token.{contains_rune, all_hex, is_likely_token}
use ea_share.Target.Token.{hex_encode}

-- Characters of one byte in UTF-8.
narrow : String → Bool
narrow empty = true
narrow (cons c s) = len_utf8 c == 1 && narrow s

size : String → ℕ
size empty = 0
size (cons c s) = suc (size s)

all_hex-digit :
    (n : ℕ) (ds s : String) → all_hex ds ≡ true → all_hex s ≡ true → all_hex (digit n ds s) ≡ true
unfolding digit all_hex
all_hex-digit n empty s d h = h
all_hex-digit zero (cons c ds) s d h = ground arith
all_hex-digit (suc n) (cons c ds) s d h = all_hex-digit n ds s (ground arith) h

len-digit :
    (n : ℕ) (ds s : String) → n < size ds → narrow ds ≡ true → len (digit n ds s) ≡ 1 + len s
unfolding digit size narrow
len-digit n empty s b d = absurd (omega arith)
len-digit zero (cons c ds) s b d =
    let one : len_utf8 c ≡ 1 = ground arith in rw (len-cons c s) (rw one refl)
len-digit (suc n) (cons c ds) s b d = len-digit n ds s (omega arith) (ground arith)

pub all_hex-hex_encode : (bs : Bytes) → all_hex (hex_encode bs) ≡ true
unfolding hex_encode all_hex contains_rune
all_hex-hex_encode [] = refl
all_hex-hex_encode (b ∷ bs) =
    all_hex-digit (b / 16) "0123456789abcdef" (digit (b % 16) "0123456789abcdef" (hex_encode bs))
      refl (all_hex-digit (b % 16) "0123456789abcdef" (hex_encode bs) refl (all_hex-hex_encode bs))

len-hex_encode : (bs : Bytes) → All IsByte bs → len (hex_encode bs) ≡ 2 * length bs
unfolding hex_encode narrow size
len-hex_encode [] h = refl
len-hex_encode (b ∷ bs) (l, h) =
    rw
      (
        len-digit (b / 16) "0123456789abcdef" (digit (b % 16) "0123456789abcdef" (hex_encode bs))
            (omega arith) refl,
        len-digit (b % 16) "0123456789abcdef" (hex_encode bs) (omega arith) refl,
        len-hex_encode bs h,
      )
      (omega arith)

pub hex_encode-likely :
    (bs : Bytes) → All IsByte bs → 8 ≤ length bs → is_likely_token (hex_encode bs) ≡ true
unfolding is_likely_token
hex_encode-likely bs h l =
    let n = len-hex_encode bs h in
    let long : ltb (len (hex_encode bs)) 16 ≡ false = ground arith in
    rw long (all_hex-hex_encode bs)
