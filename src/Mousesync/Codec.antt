-- ===== src/Mousesync/Codec.antt =====
-- Encoding and decoding undo one another, and only encodings are accepted.
use ea_share.Base.{
  ℕ, take-append-drop, true, All-take, All-drop, uint32_at-IsU32, uint32-int32, length-take,
  length-drop, ◌≤◌, zero, suc, ◌+◌, ◌≡◌, refl, sym, ap, some, [], ◌∷◌, ◌++◌, Bytes, length, take,
  drop, arith, All, IsByte, IsU64, IsInt32, uint32, int32, put_uint32, put_uint64, uint32_at,
  uint64_at, bytes_eq, bytes_eq→eq, bytes_eq_refl, int32-uint32, uint32-IsU32,
  uint32_at-put_uint32_self, uint64_at-put_uint64_self, put_uint32-uint32_at, put_uint64-uint64_at,
  List, length-append,
}
use native.Mathlib.Nat.{zero-add, suc-add}
use ea_share.Mousesync.{packet_size, Hmac, Packet, header, encode_packet, decode_packet}

-- The values that Go's types hold.
abbrev pub IsPacket : Packet → Type 0
IsPacket p = IsU64 p.seq × IsInt32 p.x × IsInt32 p.y

-- The slices of a buffer that starts with a header.
header_slices :
    (p : Packet) (t : Bytes)
    → (take 8 (header p ++ t) ≡ put_uint64 p.seq)
      × (take 4 (drop 8 (header p ++ t)) ≡ put_uint32 (uint32 p.x))
      × (take 4 (drop 12 (header p ++ t)) ≡ put_uint32 (uint32 p.y))
      × (take 16 (header p ++ t) ≡ header p)
      × (drop 16 (header p ++ t) ≡ t)
      × (length (header p) ≡ 16)
unfolding header put_uint64 put_uint32
header_slices p t = (refl, refl, refl, refl, refl, refl)

take_two {ℓ} :
    {A : Type ℓ} (m n : ℕ) (xs : List A) → take m xs ++ take n (drop m xs) ≡ take (m + n) xs
take_two zero n xs = rw zero-add
take_two (suc m) zero [] = rw suc-add
take_two (suc m) (suc n) [] = rw suc-add
take_two (suc m) n (x ∷ xs) = rw (suc-add) (ap (λ ys. x ∷ ys) (take_two m n xs))

-- The packet that a buffer holds, whatever its tag.
abbrev packet_at : Bytes → Packet
packet_at buf = record {
  seq = uint64_at (take 8 buf);
  x = int32 (uint32_at (take 4 (drop 8 buf)));
  y = int32 (uint32_at (take 4 (drop 12 buf)));
}

four_bytes :
    (n : ℕ) (buf : Bytes)
    → All IsByte buf
    → n + 4 ≤ length buf
    → put_uint32 (uint32 (int32 (uint32_at (take 4 (drop n buf))))) ≡ take 4 (drop n buf)
four_bytes n buf h l =
    let p = take 4 (drop n buf) in
    let hp : All IsByte p = All-take IsByte 4 (drop n buf) (All-drop IsByte n buf h) in
    rw (uint32-int32 (uint32_at p) (uint32_at-IsU32 p hp))
      (put_uint32-uint32_at p hp (omega (arith, length-take 4 (drop n buf), length-drop n buf)))

header_of_buffer :
    (buf : Bytes) → All IsByte buf → length buf ≡ packet_size → header (packet_at buf) ≡ take 16 buf
unfolding header
header_of_buffer buf h l =
    rw
      (
        four_bytes 8 buf h (omega arith),
        four_bytes 12 buf h (omega arith),
        put_uint64-uint64_at (take 8 buf) (All-take IsByte 8 buf h)
            (omega (arith, length-take 8 buf)),
        take_two 8 4 buf,
      )
      (take_two 12 4 buf)

module _ (mac : Hmac) where
  pub length-encode_packet :
      (key : Bytes) (p : Packet) → length (encode_packet mac key p) ≡ packet_size
  unfolding encode_packet
  length-encode_packet key p =
      let tag = mac.sum key (header p) in
      omega (
        arith,
        length-append (header p) tag,
        mac.length-sum key (header p),
        (header_slices p tag).5,
      )

  -- A packet decodes, under the same key, to the sequence number and the position it was made from.
  pub decode_packet-encode_packet :
      (key : Bytes) (p : Packet)
      → IsPacket p
      → decode_packet mac key (encode_packet mac key p) ≡ some p
  unfolding decode_packet encode_packet
  decode_packet-encode_packet key p (hs, hx, hy) =
      let tag = mac.sum key (header p) in
      let (s8, s4x, s4y, s16, rest, len) = header_slices p tag in
      rw
        (
          s8,
          s4x,
          s4y,
          s16,
          rest,
          uint64_at-put_uint64_self p.seq hs,
          uint32_at-put_uint32_self (uint32 p.x) (uint32-IsU32 p.x),
          uint32_at-put_uint32_self (uint32 p.y) (uint32-IsU32 p.y),
          int32-uint32 p.x hx,
          int32-uint32 p.y hy,
          bytes_eq_refl tag,
        )
        (ground (arith, length-append (header p) tag, mac.length-sum key (header p)))

  decode_packet_fields :
      (key buf : Bytes) (p : Packet)
      → decode_packet mac key buf ≡ some p
      → (length buf ≡ packet_size)
        × (bytes_eq (mac.sum key (take 16 buf)) (drop 16 buf) ≡ true)
        × (p ≡ packet_at buf)
  unfolding decode_packet
  decode_packet_fields key buf p e = ground arith

  -- Every buffer of bytes that is accepted is the encoding, under this key, of the packet that it decodes to:
  -- nothing else passes the size test and the tag.
  pub decode_packet_authentic :
      (key buf : Bytes) (p : Packet)
      → All IsByte buf
      → decode_packet mac key buf ≡ some p
      → buf ≡ encode_packet mac key p
  unfolding decode_packet encode_packet
  decode_packet_authentic key buf p bytes e =
      let (l, t, f) = decode_packet_fields key buf p e in
      rw (f, header_of_buffer buf bytes l, bytes_eq→eq (mac.sum key (take 16 buf)) (drop 16 buf) t)
        (sym (take-append-drop 16 buf))
