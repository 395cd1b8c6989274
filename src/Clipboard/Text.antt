-- ===== src/Clipboard/Text.antt =====
-- internal/clipboard/clipboard.go: what is written is what is read.
use ea_share.Base.{ℕ, zero, suc, ◌-◌, ◌<◌, ◌≡◌, refl, true, none, some, List, Bytes, arith, ltb}
use ea_share.Clipboard.{
  Board, Codec, present, open_clipboard, attempts, up_to_zero, read_text, write_text, set_text,
  text_of, emptied,
}

-- The retries succeed exactly when fewer attempts fail than are made.
pub open_clipboard_lem :
    (n : ℕ) (s : Board) → open_clipboard n s ≡ (record s { busy = s.busy - n }, ltb s.busy n)
unfolding open_clipboard
open_clipboard_lem zero s = ground arith
open_clipboard_lem (suc n) s = ground (arith, open_clipboard_lem n (record s { busy = s.busy - 1 }))

-- What a successful write leaves.
write_text_done :
    (c : Codec) (text : Bytes) (us : List ℕ) (s t : Board)
    → c.utf16_from_string text ≡ some us
    → write_text c text s ≡ (t, none)
    → (t.busy ≡ 0) × (t.locks ≡ true) × (t.unicode_text ≡ some us)
unfolding write_text set_text emptied
write_text_done c text us s t e h =
    let h' = rw (e, write_text, open_clipboard_lem attempts s) at h in ground arith

-- A text that was written is there to be read, where the conversion to UTF-16 and back gives it again.
pub read_text-write_text :
    (c : Codec) (text : Bytes) (us : List ℕ) (s t : Board)
    → c.utf16_from_string text ≡ some us
    → c.utf16_decode (up_to_zero us) ≡ text
    → write_text c text s ≡ (t, none)
    → read_text c t ≡ (t, present text)
unfolding read_text text_of
read_text-write_text c text us s t e d h =
    let (b, l, u) = write_text_done c text us s t e h in
    rw (open_clipboard_lem attempts t, read_text) (rw (b, l, u, d) (rw l refl))

-- The clipboard opens within the attempts, and the calls on it succeed.
abbrev pub IsWorking : Board → Type 0
IsWorking s = (s.busy < attempts) × (s.allocates ≡ true) × (s.locks ≡ true) × (s.sets ≡ true)

pub read_text_works :
    (c : Codec) (us : List ℕ) (s : Board)
    → IsWorking s
    → s.unicode_text ≡ some us
    → read_text c s ≡ (record s { busy = 0 }, present (c.utf16_decode (up_to_zero us)))
unfolding read_text text_of
read_text_works c us s (b, a, l, w) u = rw (open_clipboard_lem attempts s, read_text) (ground arith)

pub write_text_works :
    (c : Codec) (text : Bytes) (us : List ℕ) (s : Board)
    → IsWorking s
    → c.utf16_from_string text ≡ some us
    → (t : Board) × (write_text c text s ≡ (t, none))
unfolding write_text set_text emptied
write_text_works c text us s (b, a, l, w) e = (
  record s { busy = 0; unicode_text = some us; dib = none },
  rw (e, write_text, open_clipboard_lem attempts s) (ground arith),
)
