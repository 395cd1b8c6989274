-- ===== src/Tray/Icon/Drawn.antt =====
-- cmd/tray/icon.go: the drawing by points, and a reader of the container.
use ea_share.Base.{
  ℕ, zero, suc, Bytes, Option, length, drop, ◌^◌, ◌+◌, ◌-◌, ◌<◌, ◌≡◌, refl, ◌∙◌, ◌==◌, ltb, leb,
  ◌&&◌, ◌||◌, true, none, some, if◌then◌else◌, false, arith, Bool-cases, inl, inr,
}
use ea_share.Clipboard.Dib.{Rgb}
use ea_share.Clipboard.Dib.Header.{put_le16, put_le32}
use ea_share.Capture.Linux.{uint32_le}
use ea_share.Tray.Icon.{
  Canvas, RoundedRect, set_rgba, paint, inside_rounded_rect, fill_columns, fill_lines,
  fill_rounded_rect, background, foreground, rect, drawing, png_to_ico, generate_icon,
}

-- The same size, so that a point stays inside.
abbrev SameSize : Canvas → Canvas → Type 0
SameSize a b = (a.width ≡ b.width) × (a.height ≡ b.height)

paint-SameSize :
    (x y : ℕ) (q : RoundedRect) (col : Rgb) (img : Canvas) → SameSize (paint x y q col img) img
unfolding paint set_rgba
paint-SameSize x y q col img = elim (Bool-cases (inside_rounded_rect q x y)) [
  | inl e ↦ rw e (refl, refl)
  | inr e ↦ rw e (refl, refl)
]

paint-at :
    (x y : ℕ) (q : RoundedRect) (col : Rgb) (img : Canvas) (px py : ℕ)
    → px < img.width
    → py < img.height
    → (paint x y q col img).at px py
      ≡ (if px == x && py == y && inside_rounded_rect q px py then some col else img.at px py)
unfolding paint set_rgba
paint-at x y q col img px py w h = elim (Bool-cases (px == x && py == y)) [
  | inl e ↦
      let (here, there) : (px ≡ x) × (py ≡ y) = (ground (arith, e), ground (arith, e)) in
      rw (here, there) (ground arith)
  | inr e ↦ ground (arith, e)
]

fill_columns-SameSize :
    (n x y : ℕ) (q : RoundedRect) (col : Rgb) (img : Canvas)
    → SameSize (fill_columns n x y q col img) img
unfolding fill_columns
fill_columns-SameSize zero x y q col img = (refl, refl)
fill_columns-SameSize (suc n) x y q col img =
    let (w, h) = fill_columns-SameSize n (x + 1) y q col (paint x y q col img) in
    let (w', h') = paint-SameSize x y q col img in (w ∙ w', h ∙ h')

fill_columns-at :
    (n x y : ℕ) (q : RoundedRect) (col : Rgb) (img : Canvas) (px py : ℕ)
    → px < img.width
    → py < img.height
    → (fill_columns n x y q col img).at px py ≡ (
        if py == y && leb x px && ltb px (x + n) && inside_rounded_rect q px py
        then some col
        else img.at px py)
unfolding fill_columns
fill_columns-at zero x y q col img px py w h = ground arith
fill_columns-at (suc n) x y q col img px py w h =
    let (w', h') = paint-SameSize x y q col img in
    ground (
      arith,
      fill_columns-at n (x + 1) y q col (paint x y q col img) px py (rw (w') w) (rw (h') h),
      paint-at x y q col img px py w h,
    )

fill_lines-at :
    (n y : ℕ) (q : RoundedRect) (col : Rgb) (img : Canvas) (px py : ℕ)
    → px < img.width
    → py < img.height
    → (fill_lines n y q col img).at px py ≡ (
        if leb y py
          && ltb py (y + n)
          && leb q.x0 px
          && ltb px (q.x0 + (q.x1 + 1 - q.x0))
          && inside_rounded_rect q px py
        then some col
        else img.at px py)
unfolding fill_lines
fill_lines-at zero y q col img px py w h = ground arith
fill_lines-at (suc n) y q col img px py w h =
    let n' = q.x1 + 1 - q.x0 in
    let (w', h') = fill_columns-SameSize n' q.x0 y q col img in
    ground (
      arith,
      fill_lines-at n (y + 1) q col (fill_columns n' q.x0 y q col img) px py (rw (w') w)
          (rw (h') h),
      fill_columns-at n' q.x0 y q col img px py w h,
    )

fill_lines-SameSize :
    (n y : ℕ) (q : RoundedRect) (col : Rgb) (img : Canvas) → SameSize (fill_lines n y q col img) img
unfolding fill_lines
fill_lines-SameSize zero y q col img = (refl, refl)
fill_lines-SameSize (suc n) y q col img =
    let n' = q.x1 + 1 - q.x0 in
    let (w, h) = fill_lines-SameSize n (y + 1) q col (fill_columns n' q.x0 y q col img) in
    let (w', h') = fill_columns-SameSize n' q.x0 y q col img in (w ∙ w', h ∙ h')

fill_rounded_rect-SameSize :
    (q : RoundedRect) (col : Rgb) (img : Canvas) → SameSize (fill_rounded_rect q col img) img
unfolding fill_rounded_rect
fill_rounded_rect-SameSize q col img = fill_lines-SameSize (q.y1 + 1 - q.y0) q.y0 q col img

frame :
    (x0 y0 x1 y1 px py : ℕ)
    → (ltb px x0 || ltb x1 px || ltb py y0 || ltb y1 py) ≡ false
    → (leb y0 py && ltb py (y0 + (y1 + 1 - y0)) && leb x0 px && ltb px (x0 + (x1 + 1 - x0))) ≡ true
frame x0 y0 x1 y1 px py h = ground arith

inside_rounded_rect-bounds :
    (q : RoundedRect) (px py : ℕ)
    → inside_rounded_rect q px py ≡ true
    → (leb q.y0 py
        && ltb py (q.y0 + (q.y1 + 1 - q.y0))
        && leb q.x0 px
        && ltb px (q.x0 + (q.x1 + 1 - q.x0)))
      ≡ true
unfolding inside_rounded_rect
inside_rounded_rect-bounds q px py inside =
    elim (Bool-cases (ltb px q.x0 || ltb q.x1 px || ltb py q.y0 || ltb q.y1 py)) [
      | inl e ↦ ground (arith, e, inside)
      | inr e ↦ frame q.x0 q.y0 q.x1 q.y1 px py e
    ]

-- The two loops colour exactly the points of the image that are in the rectangle.
fill_rounded_rect-at :
    (q : RoundedRect) (col : Rgb) (img : Canvas) (px py : ℕ)
    → px < img.width
    → py < img.height
    → (fill_rounded_rect q col img).at px py
      ≡ (if inside_rounded_rect q px py then some col else img.at px py)
unfolding fill_rounded_rect
fill_rounded_rect-at q col img px py w h = elim (Bool-cases (inside_rounded_rect q px py)) [
  | inl e ↦
      let bounds = inside_rounded_rect-bounds q px py e in
      fill_lines-at (q.y1 + 1 - q.y0) q.y0 q col img px py w h
      ∙ rw (bounds, e) ground (arith, bounds, e)
  | inr e ↦ fill_lines-at (q.y1 + 1 - q.y0) q.y0 q col img px py w h ∙ ground (arith, e)
]

-- A point of the image shows the topmost of the three rectangles that hold it, and is else transparent.
pub drawing-at :
    (px py : ℕ)
    → px < 32
    → py < 32
    → drawing.at px py ≡ (
        if inside_rounded_rect (rect 14 27 4) px py
        then some foreground
        else if inside_rounded_rect (rect 12 29 5) px py || inside_rounded_rect (rect 2 21 5) px py
        then some background
        else none)
unfolding drawing
drawing-at px py w h =
    let blank : Canvas = record { width = 32; height = 32; at = λ x y. none } in
    let first = fill_rounded_rect (rect 2 21 5) background blank in
    let second = fill_rounded_rect (rect 12 29 5) background first in
    let (w1, h1) = fill_rounded_rect-SameSize (rect 2 21 5) background blank in
    let (w2, h2) = fill_rounded_rect-SameSize (rect 12 29 5) background first in
    rw
      (
        fill_rounded_rect-at (rect 14 27 4) foreground second px py (rw (w2, w1) w) (rw (h2, h1) h),
        fill_rounded_rect-at (rect 12 29 5) background first px py (rw (w1) w) (rw (h1) h),
        fill_rounded_rect-at (rect 2 21 5) background blank px py w h,
      )
      ground arith

generate_icon-encoded :
    (encode : Canvas → Option Bytes) (png : Bytes)
    → encode drawing ≡ some png
    → generate_icon encode ≡ png_to_ico png 32 32
unfolding generate_icon
generate_icon-encoded encode png e = rw (generate_icon, e) refl

png_to_ico-entry :
    (png : Bytes) (w h : ℕ)
    → length png < 2 ^ 32
    → (uint32_le (drop 14 (png_to_ico png w h)) ≡ length png)
      × (drop (uint32_le (drop 18 (png_to_ico png w h))) (png_to_ico png w h) ≡ png)
unfolding png_to_ico put_le16 put_le32 uint32_le
png_to_ico-entry png w h l = (omega arith, refl)

-- The entry of the container gives the length of the image and the offset at which it is found.
pub generate_icon-reads :
    (encode : Canvas → Option Bytes) (png : Bytes)
    → encode drawing ≡ some png
    → length png < 2 ^ 32
    → (uint32_le (drop 14 (generate_icon encode)) ≡ length png)
      × (drop (uint32_le (drop 18 (generate_icon encode))) (generate_icon encode) ≡ png)
generate_icon-reads encode png e l =
    rw (generate_icon-encoded encode png e) (png_to_ico-entry png 32 32 l)
