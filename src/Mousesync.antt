-- ===== src/Mousesync.antt =====
-- internal/mousesync/mousesync.go: the packets of the UDP mouse channel. HMAC-SHA256 is an argument.
pub mod Codec
use ea_share.Base.{
  ℕ, ◌+◌, ◌≡◌, Bool, not, Option, none, some, ◌++◌, Bytes, length, take, drop, ◌==◌, if◌then◌else◌,
  ℤ, uint32, int32, put_uint32, put_uint64, uint32_at, uint64_at, bytes_eq,
}

abbrev pub key_size : ℕ
key_size = 32

-- `sha256.Size`.
abbrev pub tag_size : ℕ
tag_size = 32

abbrev pub packet_size : ℕ
packet_size = 8 + 4 + 4 + tag_size

-- HMAC-SHA256 of a message under a key: always `tag_size` bytes.
pub record Hmac : Type 0 where
  pub sum : Bytes → Bytes → Bytes
  pub length-sum : (key msg : Bytes) → length (sum key msg) ≡ tag_size

-- A sequence number and a position.
pub record Packet : Type 0 where
  pub seq : ℕ
  pub x : ℤ
  pub y : ℤ

-- The 16 bytes that the tag covers.
unfoldable pub header : Packet → Bytes
header p = put_uint64 p.seq ++ put_uint32 (uint32 p.x) ++ put_uint32 (uint32 p.y)

module _ (mac : Hmac) where
  unfoldable pub encode_packet : Bytes → Packet → Bytes
  encode_packet key p = header p ++ mac.sum key (header p)

  -- `none` is Go's `ok == false`.
  unfoldable pub decode_packet : Bytes → Bytes → Option Packet
  decode_packet key buf =
      if not (length buf == packet_size)
      then none
      else if not (bytes_eq (mac.sum key (take 16 buf)) (drop 16 buf))
      then none
      else some (record {
        seq = uint64_at (take 8 buf);
        x = int32 (uint32_at (take 4 (drop 8 buf)));
        y = int32 (uint32_at (take 4 (drop 12 buf)));
      })
