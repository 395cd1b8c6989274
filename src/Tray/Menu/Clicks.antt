-- ===== src/Tray/Menu/Clicks.antt =====
-- cmd/tray/menu.go and clipboard.go: what a click on an item of the menu does.
use text.Mathlib.Text.{◌==◌ as str_eq}
use ea_share.Base.{ℕ, String, ◌&&◌, ◌||◌, Option, none, some, List, [], ◌∷◌, Bytes, if◌then◌else◌}
use ea_share.Clipboard.{Board, Codec, open_clipboard, set_text}
use ea_share.Clipboard.Dib.{ClipError, open_failed, bad_text}
use ea_share.Tray.Profiles.{TargetProfile}
use ea_share.Tray.Store.{ConfigJson, Access, Profiles, reload_config, change_lang}
use ea_share.Tray.Processes.{
  App, toggle_target, toggle_controller, stop_target, stop_controller, on_exit,
}
use ea_share.Tray.Menu.{
  Click, on_target, on_ctrl, on_stop_target, on_stop_ctrl, on_copy_token, on_edit, on_reload,
  on_lang, on_quit,
}

-- The loop for the token to copy.
unfoldable pub token_to_copy : String → String → List TargetProfile → String
token_to_copy name token [] = token
token_to_copy name token (tp ∷ tps) =
    if str_eq tp.name name || str_eq name "" && str_eq token ""
    then token_to_copy name tp.token tps
    else token_to_copy name token tps

module _ (c : Codec) (bytes : String → Bytes) where
  -- `setClipboardText`, which opens the clipboard once and does not try again.
  unfoldable pub set_clipboard_text : String → Board → Board × Option ClipError
  set_clipboard_text s board = elim (c.utf16_from_string (bytes s)) [
    | none ↦ (board, some bad_text)
    | some us ↦
        let (opened, ok) = open_clipboard 1 board in
        if ok
        then set_text c us (record opened { unicode_text = none; dib = none })
        else (opened, some open_failed)
  ]

  unfoldable pub copy_token : App → Board → Board
  copy_token a board =
      let token = token_to_copy a.target.name "" a.cfg.targets in
      if str_eq token "" then board else (set_clipboard_text token board).0

module _ (json : ConfigJson) (os : Access) where
  profiles_of : App → Profiles
  profiles_of a = record { cfg = a.cfg; lang = a.lang; file = a.file }

  with_profiles : Profiles → App → App
  with_profiles p a = record a { cfg = p.cfg; lang = p.lang; file = p.file }

  -- A click's effect on the tray, with what starting a process would give. Copying writes the clipboard alone;
  -- the editor is a window of its own.
  unfoldable pub on_click : Option ℕ → Click → App → App
  unfolding profiles_of with_profiles
  on_click started (on_target tp) a = toggle_target tp started a
  on_click started (on_ctrl cp) a = toggle_controller cp started a
  on_click started on_stop_target a = stop_target a
  on_click started on_stop_ctrl a = stop_controller a
  on_click started on_copy_token a = a
  on_click started on_edit a = a
  on_click started on_reload a = with_profiles (reload_config json os (profiles_of a)) a
  on_click started (on_lang l) a = with_profiles (change_lang json os l (profiles_of a)) a
  on_click started on_quit a = on_exit a
