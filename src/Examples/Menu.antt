-- ===== src/Examples/Menu.antt =====
-- The tray's menu and texts at concrete inputs.
use Prim.Native.String.{String, [] as empty, ◌∷◌ as cons}
use Prim.Native.Char.{code}
use ea_share.Base.{◌≡◌, refl, true, none, some, [], ◌∷◌, Bytes, inl}
use ea_share.Clipboard.{Board, present, read_text, up_to_zero}
use ea_share.Tray.Profiles.{TargetProfile, find_target_profile}
use ea_share.Tray.Processes.{App, conn_none, conn_waiting}
use ea_share.Tray.Menu.Clicks.{copy_token}
use ea_share.Tray.Menu.Copy.{copied_token}
use ea_share.Examples.Links.{board_codec, board}

-- A text's characters, as bytes.
bytes_of : String → Bytes
bytes_of empty = []
bytes_of (cons c s) = code c ∷ bytes_of s

abbrev desk : TargetProfile
desk = record { name = "desk"; listen = ":7777"; token = "t1" }

abbrev porch : TargetProfile
porch = record { name = "porch"; listen = ":7778"; token = "t2" }

abbrev running_porch : App
running_porch = record {
  cfg = record { lang = "en"; targets = desk ∷ porch ∷ []; controllers = [] };
  file = none;
  lang = "en";
  target = record { running = some 4; name = "porch"; conn = conn_waiting };
  ctrl = record { running = none; name = ""; conn = conn_none };
  alive = λ p. true;
  command = λ q. [];
}

abbrev free_board : Board
free_board = record board { busy = 0 }

porch_units : up_to_zero (116 ∷ 50 ∷ 0 ∷ []) ≡ bytes_of "t2"
unfolding up_to_zero bytes_of
porch_units = refl

porch_found : find_target_profile "porch" (desk ∷ porch ∷ []) ≡ some porch
unfolding find_target_profile
porch_found = refl

porch_utf16 : board_codec.utf16_from_string (bytes_of "t2") ≡ some (116 ∷ 50 ∷ 0 ∷ [])
unfolding bytes_of
porch_utf16 = refl

copied_token_example :
    read_text board_codec (copy_token board_codec bytes_of running_porch free_board)
    ≡ (copy_token board_codec bytes_of running_porch free_board, present (bytes_of "t2"))
copied_token_example =
    copied_token board_codec bytes_of running_porch porch (116 ∷ 50 ∷ 0 ∷ []) free_board
      ((refl, tt), (tt, tt)) (refl, (refl, tt)) (inl (refl, porch_found)) refl refl
      (refl, refl, refl) porch_utf16 porch_units
