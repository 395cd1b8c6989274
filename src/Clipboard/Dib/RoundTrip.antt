-- ===== src/Clipboard/Dib/RoundTrip.antt =====
-- internal/clipboard/clipboard.go: the pixels that `WriteImagePNG` puts down are those that `ReadImagePNG` picks up.
use native.Mathlib.Nat.{suc-mul}
use ea_share.Base.{
  ℕ, zero, suc, ◌+◌, ◌-◌, ◌*◌, ◌/◌, ◌%◌, ◌^◌, ◌≤◌, ◌<◌, ◌≡◌, ◌⊎◌, inl, inr, Bool-cases, refl, sym,
  ◌∙◌, ◌==◌, arith,
}
use ea_share.Clipboard.Dib.Header.{Memory, set, header_size}
use ea_share.Clipboard.Dib.{Rgb, Picture, put_pixel, fill_row, fill_rows}

-- The offset in the block of the pixel in row `row` and column `x`, rows being `width` pixels wide.
abbrev pub offset : ℕ → ℕ → ℕ → ℕ
offset width row x = header_size + (row * (width * 4) + x * 4)

-- A pixel with an opaque colour is where it belongs.
abbrev pub IsAt : Memory → ℕ → Rgb → Type 0
IsAt m j p =
    (m j ≡ p.b / 2 ^ 8 % 256)
    × (m (j + 1) ≡ p.g / 2 ^ 8 % 256)
    × (m (j + 2) ≡ p.r / 2 ^ 8 % 256)
    × (m (j + 3) ≡ 0)

IsAt-agrees :
    (p : Rgb) (j : ℕ) (m n : Memory)
    → ((k : ℕ) → j ≤ k → k < j + 4 → m k ≡ n k)
    → IsAt n j p
    → IsAt m j p
IsAt-agrees p j m n same (u, v, w, x) = (
  same j (omega arith) (omega arith) ∙ u,
  same (j + 1) (omega arith) (omega arith) ∙ v,
  same (j + 2) (omega arith) (omega arith) ∙ w,
  same (j + 3) (omega arith) (omega arith) ∙ x,
)

put_pixel-IsAt : (p : Rgb) (i : ℕ) (m : Memory) → IsAt (put_pixel p i m) (header_size + i) p
unfolding put_pixel set
put_pixel-IsAt p i m = ground arith

put_pixel-other :
    (p : Rgb) (i k : ℕ) (m : Memory)
    → (k < header_size + i) ⊎ (header_size + i + 4 ≤ k)
    → put_pixel p i m k ≡ m k
unfolding put_pixel set
put_pixel-other p i k m h = ground arith

module _ (p : Picture) where
  abbrev pub row_of : ℕ → ℕ
  row_of y = p.height - 1 - y

  -- Outside of the pixels that are left, the loop over `x` changes nothing.
  fill_row-other :
      (y left x k : ℕ) (m : Memory)
      → (k < offset p.width (row_of y) x) ⊎ (offset p.width (row_of y) (x + left) ≤ k)
      → fill_row p y left x m k ≡ m k
  unfolding fill_row
  fill_row-other y zero x k m h = refl
  fill_row-other y (suc left) x k m h =
      let row_start = row_of y * (p.width * 4) in
      let rest = fill_row-other y left (suc x) k (put_pixel (p.rgba x y) (row_start + x * 4) m) in
      let here = put_pixel-other (p.rgba x y) (row_start + x * 4) k m in
      elim h [
        | inl l ↦ rest (inl (omega arith)) ∙ here (inl (omega arith))
        | inr l ↦ rest (inr (omega arith)) ∙ here (inr (omega arith))
      ]

  fill_row-IsAt :
      (y left x col : ℕ) (m : Memory)
      → x ≤ col
      → col < x + left
      → IsAt (fill_row p y left x m) (offset p.width (row_of y) col) (p.rgba col y)
  unfolding fill_row
  fill_row-IsAt y zero x col m low high = absurd (omega arith)
  fill_row-IsAt y (suc left) x col m low high =
      let next = put_pixel (p.rgba x y) (row_of y * (p.width * 4) + x * 4) m in
      elim (Bool-cases (x == col)) [
        | inr later ↦ fill_row-IsAt y left (suc x) col next (ground arith) (omega arith)
        | inl now ↦
            let e : x ≡ col = ground arith in
            rw (sym e) (
              IsAt-agrees (p.rgba x y) (offset p.width (row_of y) x)
                (fill_row p y left (suc x) next) next
                (λ k low' high'. fill_row-other y left (suc x) k next (inl (omega arith)))
                (put_pixel-IsAt (p.rgba x y) (row_of y * (p.width * 4) + x * 4) m))
      ]

  -- Rows that are filled later lie lower in the block.
  offset-next :
      (y x : ℕ)
      → suc y < p.height
      → offset p.width (row_of (suc y)) p.width ≤ offset p.width (row_of y) x
  offset-next y x h =
      let r : row_of y ≡ suc (row_of (suc y)) = omega arith in
      rw (r) (omega (arith, suc-mul (row_of (suc y)) (p.width * 4)))

  -- Above the first row that is left, the loop over `y` changes nothing.
  fill_rows-other :
      (left y k : ℕ) (m : Memory)
      → y + left ≤ p.height
      → offset p.width (row_of y) p.width ≤ k
      → fill_rows p left y m k ≡ m k
  unfolding fill_rows
  fill_rows-other zero y k m h l = refl
  fill_rows-other (suc zero) y k m h l = fill_row-other y p.width 0 k m (inr (omega arith))
  fill_rows-other (suc (suc left)) y k m h l =
      let below = offset-next y p.width (omega arith) in
      fill_rows-other (suc left) (suc y) k (fill_row p y p.width 0 m) (omega arith) (omega arith)
      ∙ fill_row-other y p.width 0 k m (inr (omega arith))

  -- The header is not touched.
  pub fill_rows-low : (left y k : ℕ) (m : Memory) → k < header_size → fill_rows p left y m k ≡ m k
  unfolding fill_rows
  fill_rows-low zero y k m l = refl
  fill_rows-low (suc left) y k m l =
      fill_rows-low left (suc y) k (fill_row p y p.width 0 m) l
      ∙ fill_row-other y p.width 0 k m (inl (omega arith))

  kept :
      (left y col : ℕ) (m : Memory)
      → y + suc left ≤ p.height
      → (k : ℕ) → offset p.width (row_of y) col ≤ k
      → k < offset p.width (row_of y) col + 4
      → fill_rows p left (suc y) m k ≡ m k
  unfolding fill_rows
  kept zero y col m h k low high = refl
  kept (suc left) y col m h k low high =
      let below = offset-next y col (omega arith) in
      fill_rows-other (suc left) (suc y) k m (omega arith) (omega arith)

  pub fill_rows-IsAt :
      (left y row col : ℕ) (m : Memory)
      → y + left ≤ p.height
      → y ≤ row
      → row < y + left
      → col < p.width
      → IsAt (fill_rows p left y m) (offset p.width (row_of row) col) (p.rgba col row)
  unfolding fill_rows
  fill_rows-IsAt zero y row col m h low high c = absurd (omega arith)
  fill_rows-IsAt (suc left) y row col m h low high c =
      let filled = fill_row p y p.width 0 m in
      elim (Bool-cases (y == row)) [
        | inr later ↦
            fill_rows-IsAt left (suc y) row col filled (omega arith) (ground arith) (omega arith) c
        | inl now ↦
            let e : y ≡ row = ground arith in
            rw (sym e) (
              IsAt-agrees (p.rgba col y) (offset p.width (row_of y) col)
                (fill_rows p left (suc y) filled) filled (kept left y col filled h)
                (fill_row-IsAt y p.width 0 col m (omega arith) (omega arith)))
      ]
