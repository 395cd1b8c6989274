-- ===== src/Clipboard/Dib/Header.antt =====
-- internal/clipboard/clipboard.go: memory, and `bitmapInfoHeader` in little-endian order.
use ea_share.Base.{
  ℕ, ◌+◌, ◌*◌, ◌/◌, ◌%◌, ◌^◌, ◌==◌, if◌then◌else◌, ℤ, uint32, int32, Bytes, [], ◌∷◌, ◌++◌,
}

abbrev pub Memory : Type 0
Memory = ℕ → ℕ

unfoldable pub set : ℕ → ℕ → Memory → Memory
set i v m j = if j == i then v else m j

-- `copy` to an offset.
unfoldable pub copy : Bytes → ℕ → Memory → Memory
copy [] i m = m
copy (b ∷ bs) i m = set i b (copy bs (i + 1) m)

unfoldable pub le16 : Memory → ℕ → ℕ
le16 m i = m i + 2 ^ 8 * m (i + 1)

unfoldable pub le32 : Memory → ℕ → ℕ
le32 m i = m i + 2 ^ 8 * m (i + 1) + 2 ^ 16 * m (i + 2) + 2 ^ 24 * m (i + 3)

unfoldable pub put_le16 : ℕ → Bytes
put_le16 n = n % 256 ∷ n / 2 ^ 8 % 256 ∷ []

unfoldable pub put_le32 : ℕ → Bytes
put_le32 n = n % 256 ∷ n / 2 ^ 8 % 256 ∷ n / 2 ^ 16 % 256 ∷ n / 2 ^ 24 % 256 ∷ []

pub record BitmapInfoHeader : Type 0 where
  pub size : ℕ
  pub width : ℤ
  pub height : ℤ
  pub planes : ℕ
  pub bit_count : ℕ
  pub compression : ℕ
  pub size_image : ℕ
  pub x_pels_per_meter : ℤ
  pub y_pels_per_meter : ℤ
  pub clr_used : ℕ
  pub clr_important : ℕ

-- `unsafe.Sizeof(hdr)`.
abbrev pub header_size : ℕ
header_size = 40

-- `binary.Read` from the start of the block.
unfoldable pub read_header : Memory → BitmapInfoHeader
unfolding le16 le32
read_header m = record {
  size = le32 m 0;
  width = int32 (le32 m 4);
  height = int32 (le32 m 8);
  planes = le16 m 12;
  bit_count = le16 m 14;
  compression = le32 m 16;
  size_image = le32 m 20;
  x_pels_per_meter = int32 (le32 m 24);
  y_pels_per_meter = int32 (le32 m 28);
  clr_used = le32 m 32;
  clr_important = le32 m 36;
}

-- `binary.Write` of the header.
unfoldable pub header_bytes : BitmapInfoHeader → Bytes
unfolding put_le16 put_le32
header_bytes h =
    put_le32 h.size
    ++ put_le32 (uint32 h.width)
    ++ put_le32 (uint32 h.height)
    ++ put_le16 h.planes
    ++ put_le16 h.bit_count
    ++ put_le32 h.compression
    ++ put_le32 h.size_image
    ++ put_le32 (uint32 h.x_pels_per_meter)
    ++ put_le32 (uint32 h.y_pels_per_meter)
    ++ put_le32 h.clr_used
    ++ put_le32 h.clr_important
