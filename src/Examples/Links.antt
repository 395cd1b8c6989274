-- ===== src/Examples/Links.antt =====
-- The clipboard, the paste hotkey, and the hooks with the loop, at concrete inputs.
use ea_share.Base.{
  All, ℕ, ◌≡◌, ◌≢◌, ◌+◌, ◌<◌, refl, arith, Bool, true, false, not, ◌&&◌, none, some, List, [], ◌∷◌,
  ◌++◌, Bytes, length, pos, ◌⊎◌,
}
use ea_share.Keys.{Name}
use ea_share.Clipsync.{read_frame, kind_auth}
use ea_share.Stream.{ok}
use ea_share.Clipboard.{
  Board, Codec, present, read_text, write_text, up_to_zero, read_image_png, write_image_png,
}
use ea_share.Clipboard.Dib.{Image, Picture}
use ea_share.Clipboard.Dib.Pasted.{reduced}
use ea_share.Clipboard.Pictures.{encoded, read_image_png-write_image_png}
use ea_share.Target.Clip.{ClipConn, serve_clip, inject_paste, handle_clip_conn, refuse}
use ea_share.Target.Clip.Access.{handle_clip_conn_needs_token, is_among}
use ea_share.Controller.Clip.{ClipClient, handle_paste_hotkey}
use ea_share.Controller.Clip as Controller
use ea_share.ClipLink.{pushed_text, pulled_text}
use ea_share.Examples.Values.{empty_writer, hi}

abbrev red : Picture
red = record { width = 2; height = 1; rgba = λ x y. record { r = 65535; g = 0; b = 257 } }

abbrev pub board_codec : Codec
board_codec = record {
  utf16_from_string = λ b. some (b ++ (0 ∷ []));
  utf16_decode = λ us. us;
  png_decode = λ b. some red;
  png_encode = λ image. some (image.width ∷ image.height ∷ (image.at 0 0).r ∷ []);
  uninitialised = λ i. 7;
}

-- Busy for three attempts, and empty.
abbrev pub board : Board
board = record {
  busy = 3;
  allocates = true;
  locks = true;
  sets = true;
  unicode_text = none;
  dib = none;
}

abbrev hi_units : List ℕ
hi_units = 104 ∷ 105 ∷ 0 ∷ []

abbrev full_board : Board
full_board = record board { unicode_text = some hi_units }

hi_decoded : up_to_zero hi_units ≡ hi
unfolding up_to_zero
hi_decoded = refl

abbrev pasted_board : Board
pasted_board = record board { busy = 0; unicode_text = some hi_units }

hi_written : write_text board_codec hi board ≡ (pasted_board, none)
unfolding write_text ea_share.Clipboard.open_clipboard
hi_written = refl

abbrev red_board : Board
red_board = (write_image_png board_codec hi board).0

red_written : write_image_png board_codec hi board ≡ (red_board, none)
unfolding write_image_png ea_share.Clipboard.open_clipboard
red_written = refl

read_image_png-write_image_png_example :
    (image : Image) × (read_image_png board_codec red_board
      ≡ (red_board, encoded board_codec board image))
    × (image.width ≡ 2)
    × (image.height ≡ 1)
    × (image.at 1 0 ≡ reduced (red.rgba 1 0))
read_image_png-write_image_png_example =
    read_image_png-write_image_png board_codec board hi red red_board 1 0 refl
      (omega arith, omega arith, omega arith, omega arith) red_written (omega arith) (omega arith)

abbrev client : ClipClient
client = record { conn = empty_writer; board = full_board; presses = [] }

abbrev server : ClipConn
server = record { conn = empty_writer; board = board; presses = [] }

pushed_text_example :
    (t : ClipConn) × (let r = (handle_paste_hotkey board_codec true true [] client).conn.sent in
      serve_clip board_codec (length r) r server ≡ t)
    × (read_text board_codec t.board ≡ (t.board, present hi))
    × (t.presses ≡ [] ++ inject_paste)
pushed_text_example =
    pushed_text board_codec hi hi_units true client server (omega arith, refl, refl, refl)
      (omega arith, refl, refl, refl) refl hi_decoded refl (omega arith) (omega arith) refl

abbrev asking : ClipClient
asking = record client { board = board }

abbrev answering : ClipConn
answering = record server { board = full_board }

not_empty : hi ≢ []
not_empty e = cc

pulled_text_example :
    (request : Bytes) × (t : ClipClient) × (let answer =
        (serve_clip board_codec (length request) request answering).conn.sent in
      handle_paste_hotkey board_codec false true answer asking ≡ t)
    × (t.conn.sent ≡ [] ++ request)
    × (read_text board_codec t.board ≡ (t.board, present hi))
    × (t.presses ≡ [] ++ Controller.inject_paste)
pulled_text_example =
    pulled_text board_codec hi hi_units asking answering (omega arith, refl, refl, refl)
      (omega arith, refl, refl, refl) refl hi_decoded refl not_empty (omega arith) (omega arith)
      (omega arith) refl

-- The token 11, and then nothing.
abbrev knock : Bytes
knock = 0 ∷ 0 ∷ 0 ∷ 0 ∷ 1 ∷ 11 ∷ []

let_in : (handle_clip_conn board_codec (11 ∷ []) knock server).conn.sent ≡ 1 ∷ 0 ∷ 0 ∷ 0 ∷ 0 ∷ []
unfolding handle_clip_conn read_frame ea_share.Stream.read_full ea_share.Base.uint32_at
    ea_share.Target.Conn.tokens_equal ea_share.Base.bytes_eq ea_share.Clipsync.write_frame
    ea_share.Stream.write ea_share.Base.put_uint32 serve_clip
let_in = refl

turned_away : (refuse board_codec server).conn.sent ≡ 2 ∷ 0 ∷ 0 ∷ 0 ∷ 0 ∷ []
unfolding refuse ea_share.Clipsync.write_frame ea_share.Stream.write ea_share.Base.put_uint32
turned_away = refl

differ : handle_clip_conn board_codec (11 ∷ []) knock server ≢ refuse board_codec server
differ e = ground (arith, let_in, turned_away)

handle_clip_conn_needs_token_example :
    (rest : Bytes) × (read_frame knock ≡ ok (kind_auth, 11 ∷ [], rest))
handle_clip_conn_needs_token_example =
    handle_clip_conn_needs_token board_codec (11 ∷ []) knock server differ

-- Ctrl, Alt and V are down.
abbrev held : Name → Bool
held n = is_among ("ControlLeft" ∷ "AltLeft" ∷ "V" ∷ []) n
