-- ===== src/Clipboard/Dib.antt =====
-- internal/clipboard/clipboard.go: the CF_DIB block, a BITMAPINFOHEADER and the rows of pixels. Memory is
-- read and written through pointers: a function from an offset into the block to a byte.
pub mod Header
pub mod Masks
pub mod RoundTrip
pub mod Pasted
use Prim.Native.Nat.{bit_and}
use ea_share.Base.{
  ℕ, zero, suc, ◌+◌, ◌-◌, ◌*◌, ◌/◌, ◌%◌, ◌^◌, ◌==◌, ltb, not, ◌&&◌, ◌||◌, Bool, true, false, Option,
  none, some, List, [], ◌∷◌, if◌then◌else◌, ℤ, pos, negsuc, ltb_ℤ, leb_ℤ, pos_part, neg_part, ◌⊎◌,
  inl, inr, uint32, int32,
}
use ea_share.Clipboard.Dib.Header.{
  Memory, set, copy, le32, BitmapInfoHeader, header_size, read_header, header_bytes,
}

pub data ClipError : Type 0 where
  open_failed lock_failed alloc_failed set_failed bad_text bad_png : ClipError
  unsupported_compression unsupported_depth bitfields_depth : ℕ → ClipError
  invalid_size : ℤ → ℤ → ClipError

-- `color.RGBA` with A = 255, and the 16-bit channels of `RGBA()` without the alpha.
pub record Rgb : Type 0 where
  pub r : ℕ
  pub g : ℕ
  pub b : ℕ

-- The `image.RGBA` that is encoded as PNG: its size, and each pixel's colour.
pub record Image : Type 0 where
  pub width : ℕ
  pub height : ℕ
  pub at : ℕ → ℕ → Rgb

-- A decoded PNG: `img.At(b.Min.X+x, b.Min.Y+y).RGBA()`.
pub record Picture : Type 0 where
  pub width : ℕ
  pub height : ℕ
  pub rgba : ℕ → ℕ → Rgb

-- `bits.TrailingZeros32`, with the bits that are left.
unfoldable pub trailing_zeros : ℕ → ℕ → ℕ
trailing_zeros zero n = 0
trailing_zeros (suc bits) n =
    let rest = trailing_zeros bits (n / 2) in if n % 2 == 0 then suc rest else 0

-- `byte((v & mask) >> shift)`.
unfoldable pub channel : ℕ → ℕ → ℕ
channel v mask = bit_and v mask / 2 ^ trailing_zeros 32 mask % 256

-- The three channel masks.
unfoldable pub masks : Memory → BitmapInfoHeader → ℕ × ℕ × ℕ
masks m hdr =
    if hdr.compression == 3
    then (le32 m 40, le32 m 44, le32 m 48)
    else (0x00FF0000, 0x0000FF00, 0x000000FF)

pixel_offset : BitmapInfoHeader → ℕ
pixel_offset hdr = if hdr.compression == 3 then header_size + 12 else header_size

row_size : ℕ → ℕ → ℕ
row_size width bytes_per_pixel = (width * bytes_per_pixel + 3) / 4 * 4

-- The pixel at offset `i` of the pixels.
unfoldable pub read_pixel : Memory → BitmapInfoHeader → ℕ → Rgb
unfolding pixel_offset
read_pixel m hdr i =
    let j = pixel_offset hdr + i in
    if hdr.bit_count / 8 == 4
    then (let (r_mask, g_mask, b_mask) = masks m hdr in
        let v = le32 m j in
        record { r = channel v r_mask; g = channel v g_mask; b = channel v b_mask })
    else record { r = m (j + 2); g = m (j + 1); b = m j }

-- The image of a header that was accepted, `height` being the absolute value.
unfoldable pub read_pixels : Memory → BitmapInfoHeader → Bool → ℕ → ℕ → Image
unfolding row_size
read_pixels m hdr top_down width height = record {
  width = width;
  height = height;
  at = λ x y.
      let src_y = if top_down then y else height - 1 - y in
      read_pixel m hdr (src_y * row_size width (hdr.bit_count / 8) + x * (hdr.bit_count / 8));
}

sized : Memory → BitmapInfoHeader → Image ⊎ ClipError
sized m hdr =
    let top_down = ltb_ℤ hdr.height (pos 0) in
    let height = if top_down then pos (neg_part hdr.height) else hdr.height in
    if leb_ℤ hdr.width (pos 0) || leb_ℤ height (pos 0)
    then inr (invalid_size hdr.width height)
    else inl (read_pixels m hdr top_down (pos_part hdr.width) (pos_part height))

-- `ReadImagePNG` between the lock and `png.Encode`.
unfoldable pub read_dib : Memory → Image ⊎ ClipError
unfolding sized
read_dib m =
    let hdr = read_header m in
    if not (hdr.compression == 0) && not (hdr.compression == 3)
    then inr (unsupported_compression hdr.compression)
    else if not (hdr.bit_count == 24) && not (hdr.bit_count == 32)
    then inr (unsupported_depth hdr.bit_count)
    else if hdr.compression == 3 && not (hdr.bit_count == 32)
    then inr (bitfields_depth hdr.bit_count)
    else sized m hdr

-- The header of `WriteImagePNG`.
unfoldable pub dib_header : ℕ → ℕ → BitmapInfoHeader
dib_header width height = record {
  size = 40;
  width = int32 (width % 2 ^ 32);
  height = int32 (height % 2 ^ 32);
  planes = 1;
  bit_count = 32;
  compression = 0;
  size_image = width * 4 * height % 2 ^ 32;
  x_pels_per_meter = pos 0;
  y_pels_per_meter = pos 0;
  clr_used = 0;
  clr_important = 0;
}

unfoldable pub put_pixel : Rgb → ℕ → Memory → Memory
put_pixel p i m =
    let j = header_size + i in
    set (j + 3) 0 (
      set (j + 2) (p.r / 2 ^ 8 % 256)
        (set (j + 1) (p.g / 2 ^ 8 % 256) (set j (p.b / 2 ^ 8 % 256) m)))

module _ (p : Picture) where
  -- The loop over `x`, with the number of pixels that are left.
  unfoldable pub fill_row : ℕ → ℕ → ℕ → Memory → Memory
  fill_row y zero x m = m
  fill_row y (suc left) x m =
      let row_start = (p.height - 1 - y) * (p.width * 4) in
      fill_row y left (suc x) (put_pixel (p.rgba x y) (row_start + x * 4) m)

  -- The loop over `y`.
  unfoldable pub fill_rows : ℕ → ℕ → Memory → Memory
  fill_rows zero y m = m
  fill_rows (suc left) y m = fill_rows left (suc y) (fill_row y p.width 0 m)

-- The block that `WriteImagePNG` puts on the clipboard, over memory that holds `junk`.
unfoldable pub write_dib : Memory → Picture → Memory
write_dib junk p = fill_rows p p.height 0 (copy (header_bytes (dib_header p.width p.height)) 0 junk)
