-- ===== src/Tray/Menu.antt =====
-- cmd/tray/menu.go: the menu that `rebuild` draws.
pub mod Clicks
pub mod Copy
use Prim.Native.String.{◌++◌ as text_append}
use text.Mathlib.Text.{◌==◌ as str_eq}
use ea_share.Base.{
  ℕ, zero, suc, String, Bool, true, false, not, ◌&&◌, ◌||◌, Option, none, some, List, [], ◌∷◌, ◌++◌,
  map, Bytes, if◌then◌else◌,
}
use ea_share.Clipboard.{Board, Codec, open_clipboard, set_text}
use ea_share.Clipboard.Dib.{ClipError, open_failed, bad_text}
use ea_share.Tray.Profiles.{TargetProfile, ControllerProfile, Config}
use ea_share.Tray.Store.{ConfigJson, Access, Profiles, reload_config, change_lang}
use ea_share.Tray.Messages.{tr}
use ea_share.Tray.Processes.{
  ConnState, conn_none, conn_waiting, conn_tcp, conn_udp, Slot, App, toggle_target,
  toggle_controller, stop_target, stop_controller, on_exit,
}

-- `fmt.Sprintf` with text arguments, and `strings.Join`.
pub record Format : Type 0 where
  pub sprintf : String → List String → String
  pub join : List String → String → String

-- What an item's goroutine does on a click.
pub data Click : Type 0 where
  on_target : TargetProfile → Click
  on_ctrl : ControllerProfile → Click
  on_stop_target on_stop_ctrl on_copy_token on_edit on_reload : Click
  on_lang : String → Click
  on_quit : Click

pub record Item : Type 0 where
  pub label : String
  pub enabled : Bool
  pub checked : Bool
  pub click : Option Click

pub data Entry : Type 0 where
  separator : Entry
  item : Item → List Item → Entry

-- The items in order, and the tooltip.
pub record Menu : Type 0 where
  pub entries : List Entry
  pub tooltip : String

is_empty {ℓ} : {A : Type ℓ} → List A → Bool
is_empty [] = true
is_empty (x ∷ xs) = false

module _ (fmt : Format) where
  unfoldable pub target_conn_label : String → ConnState → String
  target_conn_label lang conn_waiting = tr fmt.sprintf lang "status.target_listening" []
  target_conn_label lang conn_tcp = tr fmt.sprintf lang "status.connected_tcp" []
  target_conn_label lang conn_udp = tr fmt.sprintf lang "status.connected_udp" []
  target_conn_label lang conn_none = ""

  unfoldable pub ctrl_conn_label : String → ConnState → String
  ctrl_conn_label lang conn_waiting = tr fmt.sprintf lang "status.ctrl_connecting" []
  ctrl_conn_label lang conn_tcp = tr fmt.sprintf lang "status.connected_tcp" []
  ctrl_conn_label lang conn_udp = tr fmt.sprintf lang "status.connected_udp" []
  ctrl_conn_label lang conn_none = ""

  -- `AddMenuItem` of a translated text.
  entry : String → String → Bool → Option Click → Item
  entry lang key enabled click = record {
    label = tr fmt.sprintf lang key [];
    enabled = enabled;
    checked = false;
    click = click;
  }

  status_part : String → String → String → String → List String
  status_part lang key name conn =
      if str_eq name ""
      then []
      else tr fmt.sprintf lang key (fmt.sprintf "%s — %s" (name ∷ conn ∷ []) ∷ []) ∷ []

  unfoldable pub status : App → String
  unfolding status_part
  status a =
      let parts =
        status_part a.lang "status.listening_as" a.target.name
          (target_conn_label a.lang a.target.conn)
        ++ status_part a.lang "status.controlling" a.ctrl.name
            (ctrl_conn_label a.lang a.ctrl.conn) in
      elim parts [
        | [] ↦ tr fmt.sprintf a.lang "status.stopped" []
        | part ∷ rest ↦ fmt.join (part ∷ rest) " · "
      ]

  unfoldable pub target_item : App → TargetProfile → Item
  target_item a tp =
      let running = str_eq a.target.name tp.name in
      record {
        label =
            if running
            then fmt.sprintf "%s  — %s" (tp.name ∷ target_conn_label a.lang a.target.conn ∷ [])
            else fmt.sprintf "%s  (%s)" (tp.name ∷ tp.listen ∷ []);
        enabled = true;
        checked = running;
        click = some (on_target tp);
      }

  edge_label : String → String → String
  edge_label lang edge = if str_eq edge "" then tr fmt.sprintf lang "edge.always_share" [] else edge

  unfoldable pub ctrl_item : App → ControllerProfile → Item
  unfolding edge_label
  ctrl_item a cp =
      let running = str_eq a.ctrl.name cp.name in
      record {
        label =
            if running
            then fmt.sprintf "%s  — %s" (cp.name ∷ ctrl_conn_label a.lang a.ctrl.conn ∷ [])
            else fmt.sprintf "%s  (%s)" (cp.name ∷ edge_label a.lang cp.edge ∷ []);
        enabled = true;
        checked = running;
        click = some (on_ctrl cp);
      }

  lang_item : String → Bool → String → Item
  lang_item label checked lang = record {
    label = label;
    enabled = true;
    checked = checked;
    click = some (on_lang lang);
  }

  unfoldable pub rebuild : App → Menu
  unfolding entry lang_item is_empty
  rebuild a =
      let english = str_eq a.lang "en" in
      record {
        entries =
            item
              (record {
                label = text_append "kbs — " (status a);
                enabled = false;
                checked = false;
                click = none;
              })
              []
            ∷ separator
            ∷ item (entry a.lang "menu.listen_as_target" (not (is_empty a.cfg.targets)) none)
                (map (target_item a) a.cfg.targets)
            ∷ item (entry a.lang "menu.connect_to" (not (is_empty a.cfg.controllers)) none)
                (map (ctrl_item a) a.cfg.controllers)
            ∷ separator
            ∷ item
                (entry a.lang "menu.stop_target" (not (str_eq a.target.name ""))
                  (some on_stop_target))
                []
            ∷ item
                (entry a.lang "menu.stop_controller" (not (str_eq a.ctrl.name ""))
                  (some on_stop_ctrl))
                []
            ∷ separator
            ∷ item
                (entry a.lang "menu.copy_token" (not (is_empty a.cfg.targets)) (some on_copy_token))
                []
            ∷ item (entry a.lang "menu.edit_profiles" true (some on_edit)) []
            ∷ item (entry a.lang "menu.reload_profiles" true (some on_reload)) []
            ∷ item (entry a.lang "menu.language" true none)
                (lang_item "English" english "en" ∷ lang_item "Português" (not english) "pt" ∷ [])
            ∷ separator
            ∷ item (entry a.lang "menu.quit" true (some on_quit)) []
            ∷ [];
        tooltip = text_append "kbs — " (status a);
      }
