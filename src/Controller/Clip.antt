-- ===== src/Controller/Clip.antt =====
-- cmd/controller/clipboard_windows.go: the controller's side of the clipboard channel.
use ea_share.Base.{
  ℕ, Bool, true, false, Option, none, some, List, [], ◌∷◌, ◌++◌, Bytes, length, ◌==◌, not,
  if◌then◌else◌,
}
use ea_share.Stream.{Error, ok, err, Writer}
use ea_share.Clipsync.{
  write_frame, read_frame, kind_auth, kind_auth_ok, kind_request, kind_text, kind_image,
}
use ea_share.Clipboard.{
  Board, Codec, absent, present, failed, read_text, write_text, read_image_png, write_image_png,
}
use ea_share.Clipboard.Dib.{ClipError}
use ea_share.Keys.{Name}

abbrev modifier_keys : List Name
modifier_keys =
    "ControlLeft" ∷ "ControlRight" ∷ "AltLeft" ∷ "AltRight" ∷ "ShiftLeft" ∷ "ShiftRight" ∷ []

release_all : List Name → List (Name × Bool)
release_all [] = []
release_all (k ∷ ks) = (k, false) ∷ release_all ks

unfoldable pub inject_paste : List (Name × Bool)
unfolding release_all
inject_paste =
    release_all modifier_keys
    ++ (("ControlLeft", true) ∷ ("V", true) ∷ ("V", false) ∷ ("ControlLeft", false) ∷ [])

-- How `dialClipboard` ends, once the connection stands: with what the reader still holds, or not.
pub data Dialled : Type 0 where
  dialled : Bytes → Dialled
  failed_dial : Error → Dialled
  auth_rejected : Dialled

read_reply : Bytes → Dialled
read_reply r = elim (read_frame r) [
  | err x ↦ failed_dial x
  | ok (kind, payload, rest) ↦ if not (kind == kind_auth_ok) then auth_rejected else dialled rest
]

unfoldable pub dial_clipboard : Bytes → Writer → Bytes → Writer × Dialled
unfolding read_reply
dial_clipboard token w r =
    let (w', e) = write_frame w kind_auth token in
    elim e [ some x ↦ (w', failed_dial x) | none ↦ (w', read_reply r) ]

-- The client's connection, this machine's clipboard, and the calls of the local injector.
pub record ClipClient : Type 0 where
  pub conn : Writer
  pub board : Board
  pub presses : List (Name × Bool)

-- The error of a transfer: the clipboard's, the connection's, or a reply of a kind that is not expected.
pub data Failure : Type 0 where
  board_error : ClipError → Failure
  conn_error : Error → Failure
  unexpected_kind : ℕ → Failure

unfoldable pub conn_failure : Option Error → Option Failure
conn_failure none = none
conn_failure (some x) = some (conn_error x)

unfoldable pub send : ℕ → Bytes → ClipClient → ClipClient × Option Failure
unfolding conn_failure
send kind payload s =
    let (w, e) = write_frame s.conn kind payload in (record s { conn = w }, conn_failure e)

module _ (c : Codec) where
  push_image : ClipClient → ClipClient × Option Failure
  unfolding send
  push_image s =
      let (board, reading) = read_image_png c s.board in
      let s' = record s { board = board } in
      elim reading [
        | failed e ↦ (s', some (board_error e))
        | present png ↦ send kind_image png s'
        | absent ↦ (s', none)
      ]

  unfoldable pub push_local_clipboard : ClipClient → ClipClient × Option Failure
  unfolding push_image send
  push_local_clipboard s =
      let (board, reading) = read_text c s.board in
      let s' = record s { board = board } in
      elim reading [
        | failed e ↦ (s', some (board_error e))
        | present text ↦ send kind_text text s'
        | absent ↦ push_image s'
      ]

  -- After the switch of `pullRemoteClipboard`, with what the write to the clipboard gave.
  unfoldable pub pasted : Board × Option ClipError → ClipClient → ClipClient × Option Failure
  pasted (board, some x) s = (record s { board = board }, some (board_error x))
  pasted (board, none) s = (record s { board = board; presses = s.presses ++ inject_paste }, none)

  unfoldable pub take_reply : ℕ → Bytes → ClipClient → ClipClient × Option Failure
  unfolding pasted
  take_reply kind payload s =
      if kind == kind_text
      then (if length payload == 0 then (s, none) else pasted (write_text c payload s.board) s)
      else if kind == kind_image
      then pasted (write_image_png c payload s.board) s
      else (s, some (unexpected_kind kind))

  unfoldable pub read_pull : Bytes → ClipClient → ClipClient × Option Failure
  unfolding take_reply
  read_pull r s = elim (read_frame r) [
    | err x ↦ (s, some (conn_error x))
    | ok (kind, payload, rest) ↦ take_reply kind payload s
  ]

  -- `r` is what the target answers.
  unfoldable pub pull_remote_clipboard : Bytes → ClipClient → ClipClient × Option Failure
  unfolding send read_pull
  pull_remote_clipboard r s =
      let (s', e) = send kind_request [] s in
      elim e [ some x ↦ (s', some x) | none ↦ read_pull r s' ]

  -- `inject.New` succeeds or not.
  unfoldable pub handle_paste_hotkey : Bool → Bool → Bytes → ClipClient → ClipClient
  handle_paste_hotkey engaged injector r s =
      if engaged
      then (push_local_clipboard s).0
      else if injector
      then (pull_remote_clipboard r s).0
      else s
