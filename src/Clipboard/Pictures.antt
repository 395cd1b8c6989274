-- ===== src/Clipboard/Pictures.antt =====
-- internal/clipboard/clipboard.go: a picture that is written to the clipboard, and read.
use ea_share.Base.{ℕ, ◌<◌, ◌≡◌, refl, true, none, some, Bytes, arith}
use ea_share.Clipboard.Dib.{Image, Picture, bad_png, write_dib}
use ea_share.Clipboard.Dib.Pasted.{IsSized, reduced, read_dib-write_dib}
use ea_share.Clipboard.Text.{open_clipboard_lem}
use ea_share.Clipboard.{
  Board, Codec, Reading, present, failed, attempts, read_image_png, write_image_png, put_picture,
  set_dib, emptied, image_of,
}

module _ (c : Codec) (s : Board) where
  put_picture_done :
      (p : Picture) (t : Board)
      → IsSized p
      → put_picture c p s ≡ (t, none)
      → (t.busy ≡ 0) × (t.locks ≡ true) × (t.dib ≡ some (write_dib c.uninitialised p))
  unfolding put_picture set_dib emptied
  put_picture_done p t (w, w', h, h') e =
      let e' = rw (open_clipboard_lem attempts s) at e in ground arith

  -- The PNG that a board yields, given the image in it.
  abbrev pub encoded : Image → Reading
  encoded image = elim (c.png_encode image) [ none ↦ failed bad_png | some out ↦ present out ]

  -- A PNG whose picture has a size that fits is written, and the read that follows encodes an image of that
  -- size with, at every place, the upper eight bits of each of the picture's channels.
  pub read_image_png-write_image_png :
      (png : Bytes) (p : Picture) (t : Board) (x y : ℕ)
      → c.png_decode png ≡ some p
      → IsSized p
      → write_image_png c png s ≡ (t, none)
      → x < p.width
      → y < p.height
      → (image : Image) × (read_image_png c t ≡ (t, encoded image))
        × (image.width ≡ p.width)
        × (image.height ≡ p.height)
        × (image.at x y ≡ reduced (p.rgba x y))
  unfolding write_image_png read_image_png image_of
  read_image_png-write_image_png png p t x y d fits e left top =
      let (b, l, held) = put_picture_done p t fits (rw (d, write_image_png) at e) in
      let (image, read, w, h, at) = read_dib-write_dib c.uninitialised p fits in
      (
        image,
        rw (open_clipboard_lem attempts t, read_image_png) (rw (b, l, held) (rw (l, read) refl)),
        w,
        h,
        at x y left top,
      )
