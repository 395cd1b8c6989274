-- ===== src/ClipLink.antt =====
-- The paste hotkey from end to end: cmd/controller/clipboard_windows.go against
-- cmd/target/clipboard_windows.go.
use ea_share.Base.{
  ℕ, zero, suc, ◌+◌, ◌-◌, ◌≤◌, ◌≡◌, ◌≢◌, refl, sym, ap, ◌∙◌, Bool, true, false, none, some, [], ◌∷◌,
  ◌++◌, Bytes, length, arith, append-nil,
}
use ea_share.Stream.{read_full}
use ea_share.Clipsync.{max_frame_size, read_frame, kind_request, kind_text}
use ea_share.Clipsync.Framing.{frame, write_frame_fits, read_frame-frame}
use ea_share.Clipboard.{Board, Codec, present, up_to_zero, read_text, write_text}
use ea_share.Clipboard.Text.{IsWorking, read_text_works, write_text_works, read_text-write_text}
use ea_share.Target.Clip.{
  ClipConn, serve_clip, serve_frame, inject_paste, receive_text, paste, reply_with_local_clipboard,
}
use ea_share.Target.Clip as Target
use ea_share.Controller.Clip.{
  ClipClient, push_local_clipboard, pull_remote_clipboard, take_reply, read_pull,
  handle_paste_hotkey,
}
use ea_share.Controller.Clip as Controller

module _ (c : Codec) where
  serve_clip-nil : (f : ℕ) (s : ClipConn) → serve_clip c f [] s ≡ s
  unfolding serve_clip read_frame read_full
  serve_clip-nil zero s = refl
  serve_clip-nil (suc f) s = refl

  -- One frame, and nothing after it.
  serve_clip-frame :
      (kind : ℕ) (payload : Bytes) (s : ClipConn)
      → length payload ≤ max_frame_size
      → serve_clip c (length (frame kind payload)) (frame kind payload) s
        ≡ serve_frame c kind payload s
  unfolding serve_clip
  serve_clip-frame kind payload s small =
      let read =
        ap read_frame (sym (append-nil (frame kind payload)))
        ∙ read_frame-frame kind payload [] small in
      rw (read, serve_clip) (serve_clip-nil _ _)

  receive_text-fits :
      (text : Bytes) (s : ClipConn) (t : Board)
      → write_text c text s.board ≡ (t, none)
      → receive_text c text s ≡ record s { board = t; presses = s.presses ++ inject_paste }
  unfolding receive_text
  receive_text-fits text s t e = rw (e, receive_text) (rw e refl)

  serve_frame-text :
      (text : Bytes) (s : ClipConn) → serve_frame c kind_text text s ≡ receive_text c text s
  unfolding serve_frame
  serve_frame-text text s = refl

  push-frame :
      (text : Bytes) (b : Board) (k : ClipClient)
      → read_text c k.board ≡ (b, present text)
      → length text ≤ max_frame_size
      → length text + 5 ≤ k.conn.room
      → (push_local_clipboard c k).0.conn.sent ≡ k.conn.sent ++ frame kind_text text
  unfolding push_local_clipboard Controller.send
  push-frame text b k e small room =
      rw (e, push_local_clipboard, write_frame_fits k.conn kind_text text small room) refl

  reply-frame :
      (text : Bytes) (b : Board) (s : ClipConn)
      → read_text c s.board ≡ (b, present text)
      → length text ≤ max_frame_size
      → length text + 5 ≤ s.conn.room
      → (serve_frame c kind_request [] s).conn.sent ≡ s.conn.sent ++ frame kind_text text
  unfolding serve_frame reply_with_local_clipboard Target.send
  reply-frame text b s e small room =
      rw
        (
          e,
          serve_frame,
          reply_with_local_clipboard,
          write_frame_fits s.conn kind_text text small room,
        )
        refl

  take_reply-text :
      (text : Bytes) (k : ClipClient) (t : Board)
      → text ≢ []
      → write_text c text k.board ≡ (t, none)
      → take_reply c kind_text text k
        ≡ (record k { board = t; presses = k.presses ++ Controller.inject_paste }, none)
  unfolding take_reply Controller.pasted
  take_reply-text [] k t ne e = absurd (ne refl)
  take_reply-text (x ∷ text) k t ne e = rw (e, take_reply) (ground arith)

  read_pull-frame :
      (text : Bytes) (k : ClipClient) (t : Board)
      → text ≢ []
      → write_text c text k.board ≡ (t, none)
      → length text ≤ max_frame_size
      → read_pull c (frame kind_text text) k
        ≡ (record k { board = t; presses = k.presses ++ Controller.inject_paste }, none)
  unfolding read_pull
  read_pull-frame text k t ne e small =
      let read =
        ap read_frame (sym (append-nil (frame kind_text text)))
        ∙ read_frame-frame kind_text text [] small in
      rw (read, read_pull) (take_reply-text text k t ne e)

  abbrev ask : ClipClient → ClipClient
  ask k = record k {
    conn = record { sent = k.conn.sent ++ frame kind_request []; room = k.conn.room - 5 };
  }

  pull-frame :
      (text : Bytes) (k : ClipClient) (t : Board)
      → text ≢ []
      → write_text c text k.board ≡ (t, none)
      → length text ≤ max_frame_size
      → 5 ≤ k.conn.room
      → pull_remote_clipboard c (frame kind_text text) k
        ≡ (record (ask k) { board = t; presses = k.presses ++ Controller.inject_paste }, none)
  unfolding pull_remote_clipboard Controller.send
  pull-frame text k t ne e small room =
      let asked = write_frame_fits k.conn kind_request [] (omega arith) room in
      rw (asked, pull_remote_clipboard) (rw (asked) (read_pull-frame text (ask k) t ne e small))

  -- Engaged: the hotkey sends this machine's text, and the target, on what was sent, holds that text and
  -- has pasted it.
  pub pushed_text :
      (text us : Bytes) (injector : Bool) (k : ClipClient) (s : ClipConn)
      → IsWorking k.board
      → IsWorking s.board
      → k.board.unicode_text ≡ some us
      → c.utf16_decode (up_to_zero us) ≡ text
      → c.utf16_from_string text ≡ some us
      → length text ≤ max_frame_size
      → length text + 5 ≤ k.conn.room
      → k.conn.sent ≡ []
      → (t : ClipConn) × (let r = (handle_paste_hotkey c true injector [] k).conn.sent in
          serve_clip c (length r) r s ≡ t)
        × (read_text c t.board ≡ (t.board, present text))
        × (t.presses ≡ s.presses ++ inject_paste)
  unfolding handle_paste_hotkey
  pushed_text text us injector k s wk ws u d e small room empty =
      let (b, w) = write_text_works c text us s.board ws e in
      let sent =
        push-frame text (record k.board { busy = 0 }) k
          (read_text_works c us k.board wk u ∙ ap (λ x. (record k.board { busy = 0 }, present x)) d)
          small room in
      (
        record s { board = b; presses = s.presses ++ inject_paste },
        rw (sent, empty)
            (serve_clip-frame kind_text text s small
              ∙ serve_frame-text text s
              ∙ receive_text-fits text s b w),
        read_text-write_text c text us s.board b e d w,
        refl,
      )

  -- Disengaged: whatever the controller is answered, its hotkey first sends one request; the target's answer
  -- to that request makes the controller's clipboard hold the target's text and paste it once.
  pub pulled_text :
      (text us : Bytes) (k : ClipClient) (s : ClipConn)
      → IsWorking k.board
      → IsWorking s.board
      → s.board.unicode_text ≡ some us
      → c.utf16_decode (up_to_zero us) ≡ text
      → c.utf16_from_string text ≡ some us
      → text ≢ []
      → length text ≤ max_frame_size
      → length text + 5 ≤ s.conn.room
      → 5 ≤ k.conn.room
      → s.conn.sent ≡ []
      → (request : Bytes) × (t : ClipClient) × (let answer =
            (serve_clip c (length request) request s).conn.sent in
          handle_paste_hotkey c false true answer k ≡ t)
        × (t.conn.sent ≡ k.conn.sent ++ request)
        × (read_text c t.board ≡ (t.board, present text))
        × (t.presses ≡ k.presses ++ Controller.inject_paste)
  unfolding handle_paste_hotkey
  pulled_text text us k s wk ws u d e ne small rs rk empty =
      let (b, w) = write_text_works c text us k.board wk e in
      let read =
        read_text_works c us s.board ws u ∙ ap (λ x. (record s.board { busy = 0 }, present x)) d in
      let answer = reply-frame text (record s.board { busy = 0 }) s read small rs in
      (
        frame kind_request [],
        record (ask k) { board = b; presses = k.presses ++ Controller.inject_paste },
        rw
            (
              serve_clip-frame kind_request [] s (omega arith),
              answer,
              empty,
              pull-frame text k b ne w small rk,
            )
            refl,
        refl,
        read_text-write_text c text us k.board b e d w,
        refl,
      )
