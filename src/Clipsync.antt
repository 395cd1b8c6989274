-- ===== src/Clipsync.antt =====
-- internal/clipsync/clipsync.go: the frames of the clipboard connection.
pub mod Framing
use ea_share.Base.{
  ℕ, ◌*◌, ◌%◌, ◌^◌, ◌≡◌, Option, none, some, [], ◌∷◌, Bytes, length, ltb, ◌==◌, if◌then◌else◌,
  put_uint32, uint32_at, drop, List, ◌++◌,
}
use ea_share.Stream.{Error, too_large, Result, ok, err, ◌>>=◌, Writer, write, read_full}

abbrev pub max_frame_size : ℕ
max_frame_size = 32 * 1024 * 1024

-- `Kind` is a byte; these are its named values, in the order of `iota`.
abbrev pub kind_auth : ℕ
kind_auth = 0

abbrev pub kind_auth_ok : ℕ
kind_auth_ok = 1

abbrev pub kind_auth_fail : ℕ
kind_auth_fail = 2

abbrev pub kind_request : ℕ
kind_request = 3

abbrev pub kind_text : ℕ
kind_text = 4

abbrev pub kind_image : ℕ
kind_image = 5

-- What follows the header: nothing for an empty payload.
write_payload : Writer → Option Error → Bytes → Writer × Option Error
write_payload w (some x) payload = (w, some x)
write_payload w none payload = if length payload == 0 then (w, none) else write w payload

unfoldable pub write_frame : Writer → ℕ → Bytes → Writer × Option Error
unfolding write_payload
write_frame w kind payload =
    if ltb max_frame_size (length payload)
    then (w, some too_large)
    else let (w', e) = write w (kind ∷ put_uint32 (length payload % 2 ^ 32)) in
      write_payload w' e payload

read_payload : ℕ → ℕ → Bytes → Result (ℕ × Bytes × Bytes)
read_payload kind n r =
    if ltb max_frame_size n
    then err too_large
    else (do (payload, rest) ← read_full n r; ok (kind, payload, rest))

-- `Kind(hdr[0])` of a header of five bytes.
abbrev kind_of : Bytes → ℕ
kind_of [] = 0
kind_of (k ∷ _) = k

-- The kind, the payload and what the reader still holds.
unfoldable pub read_frame : Bytes → Result (ℕ × Bytes × Bytes)
unfolding read_payload
read_frame r = do (hdr, r') ← read_full 5 r; read_payload (kind_of hdr) (uint32_at (drop 1 hdr)) r'
