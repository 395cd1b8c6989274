-- ===== src/Clipboard/Dib/Pasted.antt =====
-- internal/clipboard/clipboard.go: `ReadImagePNG` on the block that `WriteImagePNG` made.
use ea_share.Base.{
  ℕ, ◌+◌, ◌-◌, ◌*◌, ◌/◌, ◌%◌, ◌^◌, ◌≤◌, ◌<◌, ◌≡◌, refl, ◌∙◌, false, inl, arith, pos, uint32, int32,
  uint32-int32, uint32-IsU32,
}
use ea_share.Clipboard.Dib.Header.{
  Memory, set, copy, le16, le32, header_size, read_header, header_bytes, BitmapInfoHeader,
}
use ea_share.Clipboard.Dib.{
  Rgb, Image, Picture, read_pixel, read_pixels, masks, dib_header, write_dib, read_dib, sized,
  pixel_offset, row_size,
}
use ea_share.Clipboard.Dib.Masks.{channel-blue, channel-green, channel-red}
use ea_share.Clipboard.Dib.RoundTrip.{fill_rows-low, fill_rows-IsAt, IsAt}

le32-agrees :
    (m n : Memory) (i : ℕ) → ((k : ℕ) → i ≤ k → k < i + 4 → m k ≡ n k) → le32 m i ≡ le32 n i
unfolding le32
le32-agrees m n i h = omega (
  arith,
  h i (omega arith) (omega arith),
  h (i + 1) (omega arith) (omega arith),
  h (i + 2) (omega arith) (omega arith),
  h (i + 3) (omega arith) (omega arith),
)

-- The header's bytes at the start of the memory.
abbrev headed : ℕ → ℕ → Memory → Memory
headed width height junk = copy (header_bytes (dib_header width height)) 0 junk

module _ (width height : ℕ) (junk : Memory) where
  headed-width : le32 (headed width height junk) 4 ≡ uint32 (int32 (width % 2 ^ 32))
  unfolding le32 copy set header_bytes dib_header
  headed-width = omega (arith, uint32-IsU32 (int32 (width % 2 ^ 32)))

  headed-height : le32 (headed width height junk) 8 ≡ uint32 (int32 (height % 2 ^ 32))
  unfolding le32 copy set header_bytes dib_header
  headed-height = omega (arith, uint32-IsU32 (int32 (height % 2 ^ 32)))

  headed-compression : le32 (headed width height junk) 16 ≡ 0
  unfolding le32 copy set header_bytes dib_header
  headed-compression = refl

  headed-bit_count : le16 (headed width height junk) 14 ≡ 32
  unfolding le16 copy set header_bytes dib_header
  headed-bit_count = refl

-- The colour that a 16-bit one leaves in the block.
abbrev pub reduced : Rgb → Rgb
reduced q = record { r = q.r / 2 ^ 8 % 256; g = q.g / 2 ^ 8 % 256; b = q.b / 2 ^ 8 % 256 }

read_pixel-IsAt :
    (m : Memory) (hdr : BitmapInfoHeader) (i : ℕ) (q : Rgb)
    → hdr.compression ≡ 0
    → hdr.bit_count ≡ 32
    → IsAt m (header_size + i) q
    → read_pixel m hdr i ≡ reduced q
unfolding read_pixel pixel_offset masks le32
read_pixel-IsAt m hdr i q c b (mb, mg, mr, mz) =
    rw (c, b, channel-blue, channel-green, channel-red, mb, mg, mr, mz) (ground arith)

read_dib-accepts :
    (m : Memory) (width height : ℕ)
    → (read_header m).compression ≡ 0
    → (read_header m).bit_count ≡ 32
    → (read_header m).width ≡ pos width
    → (read_header m).height ≡ pos height
    → 0 < width
    → 0 < height
    → read_dib m ≡ inl (read_pixels m (read_header m) false width height)
unfolding read_dib sized
read_dib-accepts m width height c b w h pw ph = rw (c, b, w, h) (ground arith)

-- The size of a picture that fits an int32.
abbrev pub IsSized : Picture → Type 0
IsSized p = (0 < p.width) × (p.width < 2 ^ 31) × (0 < p.height) × (p.height < 2 ^ 31)

module _ (junk : Memory) (p : Picture) (fits : IsSized p) where
  -- The header of the finished block is the one that was put at its start.
  written-header :
      (i : ℕ)
      → i + 4 ≤ header_size
      → le32 (write_dib junk p) i ≡ le32 (headed p.width p.height junk) i
  unfolding write_dib
  written-header i h =
      le32-agrees _ _ i
        (λ k low high. fill_rows-low p p.height 0 k (headed p.width p.height junk) (omega arith))

  written-width : (read_header (write_dib junk p)).width ≡ pos p.width
  unfolding read_header
  written-width =
      let small : p.width % 2 ^ 32 ≡ p.width = omega (arith, fits.1) in
      rw
        (
          written-header 4 (omega arith),
          headed-width p.width p.height junk,
          small,
          uint32-int32 p.width (omega (arith, fits.1)),
        )
        (ground (arith, fits.1))

  written-height : (read_header (write_dib junk p)).height ≡ pos p.height
  unfolding read_header
  written-height =
      let small : p.height % 2 ^ 32 ≡ p.height = omega (arith, fits.3) in
      rw
        (
          written-header 8 (omega arith),
          headed-height p.width p.height junk,
          small,
          uint32-int32 p.height (omega (arith, fits.3)),
        )
        (ground (arith, fits.3))

  written-compression : (read_header (write_dib junk p)).compression ≡ 0
  unfolding read_header
  written-compression = written-header 16 (omega arith) ∙ headed-compression p.width p.height junk

  written-bit_count : (read_header (write_dib junk p)).bit_count ≡ 32
  unfolding read_header write_dib le16
  written-bit_count =
      let low : (k : ℕ) → k < header_size → write_dib junk p k ≡ headed p.width p.height junk k =
        λ k h. fill_rows-low p p.height 0 k (headed p.width p.height junk) h in
      omega
        (arith, low 14 (omega arith), low 15 (omega arith), headed-bit_count p.width p.height junk)

  written-pixel :
      (x y : ℕ)
      → x < p.width
      → y < p.height
      → (read_pixels (write_dib junk p) (read_header (write_dib junk p)) false p.width p.height).at
          x y
        ≡ reduced (p.rgba x y)
  unfolding read_pixels row_size write_dib
  written-pixel x y w h =
      let m = write_dib junk p in
      let hdr = read_header m in
      let place = (p.height - 1 - y) * (p.width * 4) + x * 4 in
      let four : hdr.bit_count / 8 ≡ 4 = omega (arith, written-bit_count) in
      let row : (p.width * 4 + 3) / 4 * 4 ≡ p.width * 4 = omega arith in
      rw (four, row)
        (read_pixel-IsAt m hdr place (p.rgba x y) written-compression written-bit_count (
          fill_rows-IsAt p p.height 0 y x (headed p.width p.height junk) (omega arith) (omega arith)
            (omega arith) w))

  -- A picture whose size fits is read back from the block that it was written to: the same size, and at
  -- every place the upper eight bits of each channel.
  pub read_dib-write_dib :
      (image : Image) × (read_dib (write_dib junk p) ≡ inl image)
      × (image.width ≡ p.width)
      × (image.height ≡ p.height)
      × ((x y : ℕ) → x < p.width → y < p.height → image.at x y ≡ reduced (p.rgba x y))
  unfolding read_pixels
  read_dib-write_dib = (
    read_pixels (write_dib junk p) (read_header (write_dib junk p)) false p.width p.height,
    read_dib-accepts (write_dib junk p) p.width p.height written-compression written-bit_count
        written-width written-height fits.0 fits.2,
    refl,
    refl,
    written-pixel,
  )
