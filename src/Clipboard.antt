-- ===== src/Clipboard.antt =====
-- internal/clipboard/clipboard.go: the Windows clipboard, as text and as a device-independent bitmap.
pub mod Dib
pub mod Text
pub mod Pictures
use ea_share.Base.{
  ℕ, zero, suc, ◌+◌, ◌-◌, ◌==◌, Bool, true, false, Option, none, some, List, [], ◌∷◌, Bytes,
  if◌then◌else◌, ◌||◌, inl, inr, pos,
}
use ea_share.Clipboard.Dib.Header.{Memory}
use ea_share.Clipboard.Dib.{
  ClipError, open_failed, lock_failed, alloc_failed, set_failed, bad_text, bad_png, invalid_size,
  Image, Picture, read_dib, write_dib,
}

-- The operating system's clipboard: the attempts to open it that still fail, whether GlobalAlloc, GlobalLock and
-- SetClipboardData succeed, and what it holds as CF_UNICODETEXT and as CF_DIB.
pub record Board : Type 0 where
  pub busy : ℕ
  pub allocates : Bool
  pub locks : Bool
  pub sets : Bool
  pub unicode_text : Option (List ℕ)
  pub dib : Option Memory

-- `syscall.UTF16FromString`, `utf16.Decode` into a string, `png.Decode`, `png.Encode`, and the contents of memory
-- that GlobalAlloc returns.
pub record Codec : Type 0 where
  pub utf16_from_string : Bytes → Option (List ℕ)
  pub utf16_decode : List ℕ → Bytes
  pub png_decode : Bytes → Option Picture
  pub png_encode : Image → Option Bytes
  pub uninitialised : Memory

-- A read: nothing of the kind, the contents, or an error.
pub data Reading : Type 0 where
  absent : Reading
  present : Bytes → Reading
  failed : ClipError → Reading

-- `openClipboard` with a number of attempts left.
unfoldable pub open_clipboard : ℕ → Board → Board × Bool
open_clipboard zero s = (s, false)
open_clipboard (suc attempts) s =
    let retry = open_clipboard attempts (record s { busy = s.busy - 1 }) in
    if s.busy == 0 then (s, true) else retry

abbrev pub attempts : ℕ
attempts = 10

-- The loop of `ReadText`; the system ends a text with a 0.
unfoldable pub up_to_zero : List ℕ → List ℕ
up_to_zero [] = []
up_to_zero (u ∷ us) = let rest = up_to_zero us in if u == 0 then [] else u ∷ rest

module _ (c : Codec) where
  text_of : Board → Reading
  text_of s = elim s.unicode_text [
    | none ↦ absent
    | some us ↦ if s.locks then present (c.utf16_decode (up_to_zero us)) else failed lock_failed
  ]

  unfoldable pub read_text : Board → Board × Reading
  unfolding text_of
  read_text s =
      let (s', opened) = open_clipboard attempts s in
      if opened then (s', text_of s') else (s', failed open_failed)

  -- What follows `EmptyClipboard`.
  unfoldable pub set_text : List ℕ → Board → Board × Option ClipError
  set_text us s =
      if s.allocates
      then (if s.locks
          then (if s.sets
              then (record s { unicode_text = some us }, none)
              else (s, some set_failed))
          else (s, some lock_failed))
      else (s, some alloc_failed)

  emptied : Board → Board
  emptied s = record s { unicode_text = none; dib = none }

  unfoldable pub write_text : Bytes → Board → Board × Option ClipError
  unfolding set_text emptied
  write_text text s = elim (c.utf16_from_string text) [
    | none ↦ (s, some bad_text)
    | some us ↦
        let (s', opened) = open_clipboard attempts s in
        if opened then set_text us (emptied s') else (s', some open_failed)
  ]

  image_of : Board → Reading
  image_of s = elim s.dib [
    | none ↦ absent
    | some m ↦
        if s.locks
        then elim (read_dib m) [
          | inr e ↦ failed e
          | inl image ↦ elim (c.png_encode image) [ none ↦ failed bad_png | some png ↦ present png ]
        ]
        else failed lock_failed
  ]

  unfoldable pub read_image_png : Board → Board × Reading
  unfolding image_of
  read_image_png s =
      let (s', opened) = open_clipboard attempts s in
      if opened then (s', image_of s') else (s', failed open_failed)

  set_dib : Memory → Board → Board × Option ClipError
  set_dib m s =
      if s.allocates
      then (if s.locks
          then (if s.sets then (record s { dib = some m }, none) else (s, some set_failed))
          else (s, some lock_failed))
      else (s, some alloc_failed)

  put_picture : Picture → Board → Board × Option ClipError
  unfolding set_dib emptied
  put_picture p s =
      if p.width == 0 || p.height == 0
      then (s, some (invalid_size (pos p.width) (pos p.height)))
      else let (s', opened) = open_clipboard attempts s in
        if opened
        then set_dib (write_dib c.uninitialised p) (emptied s')
        else (s', some open_failed)

  unfoldable pub write_image_png : Bytes → Board → Board × Option ClipError
  unfolding put_picture
  write_image_png png s = elim (c.png_decode png) [
    | none ↦ (s, some bad_png)
    | some p ↦ put_picture p s
  ]
