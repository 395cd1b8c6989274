-- ===== src/Target/Clip.antt =====
-- cmd/target/clipboard_windows.go: a connection of the clipboard channel, served by the target.
pub mod Access
use ea_share.Base.{
  ℕ, zero, suc, Bool, true, false, ◌&&◌, Option, none, some, List, [], ◌∷◌, ◌++◌, Bytes, length,
  ◌==◌, if◌then◌else◌,
}
use ea_share.Stream.{Error, Result, ok, err, Writer}
use ea_share.Clipsync.{
  write_frame, read_frame, kind_auth, kind_auth_ok, kind_auth_fail, kind_request, kind_text,
  kind_image,
}
use ea_share.Clipboard.{
  Board, Codec, Reading, absent, present, failed, read_text, write_text, read_image_png,
  write_image_png,
}
use ea_share.Keys.{Name}
use ea_share.Target.Conn.{tokens_equal}

abbrev pub modifier_keys : List Name
modifier_keys =
    "ControlLeft" ∷ "ControlRight" ∷ "AltLeft" ∷ "AltRight" ∷ "ShiftLeft" ∷ "ShiftRight" ∷ []

unfoldable pub release_all : List Name → List (Name × Bool)
release_all [] = []
release_all (k ∷ ks) = (k, false) ∷ release_all ks

-- The calls of `injector.Key` that `injectPaste` makes.
unfoldable pub inject_paste : List (Name × Bool)
inject_paste =
    release_all modifier_keys
    ++ (("ControlLeft", true) ∷ ("V", true) ∷ ("V", false) ∷ ("ControlLeft", false) ∷ [])

-- One connection: its output, this machine's clipboard, and the calls of the injector.
pub record ClipConn : Type 0 where
  pub conn : Writer
  pub board : Board
  pub presses : List (Name × Bool)

unfoldable pub send : ℕ → Bytes → ClipConn → ClipConn
send kind payload s = record s { conn = (write_frame s.conn kind payload).0 }

module _ (c : Codec) where
  reply_with_image : ClipConn → ClipConn
  unfolding send
  reply_with_image s =
      let (board, reading) = read_image_png c s.board in
      let s' = record s { board = board } in
      elim reading [
        | failed e ↦ s'
        | present png ↦ send kind_image png s'
        | absent ↦ send kind_text [] s'
      ]

  unfoldable pub reply_with_local_clipboard : ClipConn → ClipConn
  unfolding reply_with_image send
  reply_with_local_clipboard s =
      let (board, reading) = read_text c s.board in
      let s' = record s { board = board } in
      elim reading [
        | failed e ↦ s'
        | present text ↦ send kind_text text s'
        | absent ↦ reply_with_image s'
      ]

  unfoldable pub paste : ClipConn → ClipConn
  paste s = record s { presses = s.presses ++ inject_paste }

  unfoldable pub receive_text : Bytes → ClipConn → ClipConn
  unfolding paste
  receive_text text s =
      let (board, e) = write_text c text s.board in
      let s' = record s { board = board } in elim e [ some x ↦ s' | none ↦ paste s' ]

  receive_image : Bytes → ClipConn → ClipConn
  unfolding paste
  receive_image png s =
      let (board, e) = write_image_png c png s.board in
      let s' = record s { board = board } in elim e [ some x ↦ s' | none ↦ paste s' ]

  -- The switch on the kind of a frame.
  unfoldable pub serve_frame : ℕ → Bytes → ClipConn → ClipConn
  unfolding receive_text receive_image
  serve_frame kind payload s =
      if kind == kind_request
      then reply_with_local_clipboard s
      else if kind == kind_text
      then receive_text payload s
      else if kind == kind_image
      then receive_image payload s
      else s

  -- The loop until `ReadFrame` fails. A frame takes bytes, so the length of the input is fuel enough.
  unfoldable pub serve_clip : ℕ → Bytes → ClipConn → ClipConn
  serve_clip zero r s = s
  serve_clip (suc fuel) r s = elim (read_frame r) [
    | err x ↦ s
    | ok (kind, payload, rest) ↦ serve_clip fuel rest (serve_frame kind payload s)
  ]

  unfoldable pub refuse : ClipConn → ClipConn
  unfolding send
  refuse s = send kind_auth_fail [] s

  accept : Bytes → ClipConn → ClipConn
  accept rest s =
      let (w, e) = write_frame s.conn kind_auth_ok [] in
      let s' = record s { conn = w } in
      elim e [ some x ↦ s' | none ↦ serve_clip (length rest) rest s' ]

  unfoldable pub handle_clip_conn : Bytes → Bytes → ClipConn → ClipConn
  unfolding accept refuse
  handle_clip_conn token r s = elim (read_frame r) [
    | err x ↦ refuse s
    | ok (kind, payload, rest) ↦
        if kind == kind_auth && tokens_equal payload token then accept rest s else refuse s
  ]
