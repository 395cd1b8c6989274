-- ===== src/Tray/Icon.antt =====
-- cmd/tray/icon.go: the icon of the tray. Coordinates are natural numbers, as all of this drawing are; the squares
-- of `withinCircle` are far below the numbers that a float64 rounds.
pub mod Drawn
use ea_share.Base.{
  ℕ, zero, suc, ◌+◌, ◌-◌, ◌*◌, ◌/◌, ◌%◌, ◌^◌, ◌==◌, ltb, leb, ◌&&◌, ◌||◌, Bool, true, false, Option,
  none, some, [], ◌∷◌, ◌++◌, Bytes, length, if◌then◌else◌,
}
use ea_share.Clipboard.Dib.{Rgb}
use ea_share.Clipboard.Dib.Header.{put_le16, put_le32}

-- `image.RGBA`: a pixel is transparent or has an opaque colour.
pub record Canvas : Type 0 where
  pub width : ℕ
  pub height : ℕ
  pub at : ℕ → ℕ → Option Rgb

pub record RoundedRect : Type 0 where
  pub x0 : ℕ
  pub y0 : ℕ
  pub x1 : ℕ
  pub y1 : ℕ
  pub radius : ℕ

-- `img.SetRGBA`, which does nothing outside the image.
pub set_rgba : ℕ → ℕ → Rgb → Canvas → Canvas
set_rgba x y col img = record img {
  at = λ px py.
      if px == x && py == y && ltb x img.width && ltb y img.height then some col else img.at px py;
}

within_circle : ℕ → ℕ → ℕ → ℕ → ℕ → Bool
within_circle x y cx cy r =
    let dx = (x - cx) + (cx - x) in let dy = (y - cy) + (cy - y) in leb (dx * dx + dy * dy) (r * r)

-- No radius of this drawing is larger than a coordinate, so that `x1-r` and `y1-r` are not negative.
pub inside_rounded_rect : RoundedRect → ℕ → ℕ → Bool
unfolding within_circle
inside_rounded_rect q x y =
    let left = ltb x (q.x0 + q.radius) in
    let top = ltb y (q.y0 + q.radius) in
    let right = ltb q.x1 (x + q.radius) in
    let bottom = ltb q.y1 (y + q.radius) in
    if ltb x q.x0 || ltb q.x1 x || ltb y q.y0 || ltb q.y1 y
    then false
    else if left && top
    then within_circle x y (q.x0 + q.radius) (q.y0 + q.radius) q.radius
    else if right && top
    then within_circle x y (q.x1 - q.radius) (q.y0 + q.radius) q.radius
    else if left && bottom
    then within_circle x y (q.x0 + q.radius) (q.y1 - q.radius) q.radius
    else if right && bottom
    then within_circle x y (q.x1 - q.radius) (q.y1 - q.radius) q.radius
    else true

-- The body of the two loops.
pub paint : ℕ → ℕ → RoundedRect → Rgb → Canvas → Canvas
paint x y q col img = if inside_rounded_rect q x y then set_rgba x y col img else img

-- The inner loop, over `n` columns from `x` on.
pub fill_columns : ℕ → ℕ → ℕ → RoundedRect → Rgb → Canvas → Canvas
fill_columns zero x y q col img = img
fill_columns (suc n) x y q col img = fill_columns n (x + 1) y q col (paint x y q col img)

pub fill_lines : ℕ → ℕ → RoundedRect → Rgb → Canvas → Canvas
fill_lines zero y q col img = img
fill_lines (suc n) y q col img =
    fill_lines n (y + 1) q col (fill_columns (q.x1 + 1 - q.x0) q.x0 y q col img)

pub fill_rounded_rect : RoundedRect → Rgb → Canvas → Canvas
fill_rounded_rect q col img = fill_lines (q.y1 + 1 - q.y0) q.y0 q col img

size_byte : ℕ → ℕ
size_byte n = if leb 256 n then 0 else n % 256

pub png_to_ico : Bytes → ℕ → ℕ → Bytes
unfolding put_le16 put_le32 size_byte
png_to_ico png w h =
    put_le16 0
    ++ put_le16 1
    ++ put_le16 1
    ++ (size_byte w ∷ size_byte h ∷ 0 ∷ 0 ∷ [])
    ++ put_le16 1
    ++ put_le16 32
    ++ put_le32 (length png % 2 ^ 32)
    ++ put_le32 22
    ++ png

abbrev pub background : Rgb
background = record { r = 0x3E; g = 0x63; b = 0xE0 }

abbrev pub foreground : Rgb
foreground = record { r = 0xFF; g = 0xFF; b = 0xFF }

abbrev pub rect : ℕ → ℕ → ℕ → RoundedRect
rect from to radius = record { x0 = from; y0 = from; x1 = to; y1 = to; radius = radius }

pub drawing : Canvas
drawing = fill_rounded_rect (rect 14 27 4) foreground (
    fill_rounded_rect (rect 12 29 5) background (
      fill_rounded_rect (rect 2 21 5) background
        (record { width = 32; height = 32; at = λ x y. none })))

-- `generateIcon`, over `png.Encode`; the empty slice stands for its `nil`.
pub generate_icon : (Canvas → Option Bytes) → Bytes
generate_icon encode = elim (encode drawing) [ none ↦ [] | some png ↦ png_to_ico png 32 32 ]
