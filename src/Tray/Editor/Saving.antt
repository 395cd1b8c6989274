-- ===== src/Tray/Editor/Saving.antt =====
-- cmd/tray/profile_editor_windows.go: opening the editor, saving, and restarting what runs.
pub mod Saved
use text.Mathlib.Text.{◌==◌ as str_eq}
use ea_share.Base.{
  ℕ, String, Bool, true, false, Option, none, some, List, ℤ, negsuc, ltb, length, pos,
  if◌then◌else◌,
}
use ea_share.Tray.Profiles.{
  TargetProfile, ControllerProfile, Config, Problem, validate, find_target_profile,
  find_controller_profile,
}
use ea_share.Tray.Store.{ConfigJson, Access, save_config}
use ea_share.Tray.Processes.{App, start_target, start_controller}
use ea_share.Tray.Editor.{select}
use ea_share.Tray.Editor.Forms.{
  TargetFields, CtrlFields, TargetPage, CtrlPage, commit_target, commit_ctrl, refresh_target_list,
  refresh_ctrl_list, target_form, ctrl_form, add_target, remove_target, add_ctrl, remove_ctrl,
}

-- `profileEditor`: the language of the working copy, and the two pages.
pub record ProfileEditor : Type 0 where
  pub lang : String
  pub targets : TargetPage
  pub ctrls : CtrlPage

-- `cloneConfig`, and `run` up to the message loop, over what the new widgets hold.
unfoldable pub open_profile_editor :
    TargetFields → CtrlFields → List ℤ → List ℤ → Config → ProfileEditor
open_profile_editor tf cf raised_t raised_c cfg =
    let targets : TargetPage = record {
      profiles = cfg.targets;
      selected = negsuc 0;
      fields = tf;
    } in
    let ctrls : CtrlPage = record {
      profiles = cfg.controllers;
      selected = negsuc 0;
      fields = cf;
    } in
    record {
      lang = cfg.lang;
      targets =
          if ltb 0 (length cfg.targets)
          then refresh_target_list raised_t (pos 0) targets
          else targets;
      ctrls =
          if ltb 0 (length cfg.controllers)
          then refresh_ctrl_list raised_c (pos 0) ctrls
          else ctrls;
    }

unfoldable pub committed : ProfileEditor → ProfileEditor
committed e = record e { targets = commit_target e.targets; ctrls = commit_ctrl e.ctrls }

-- An editor that has not saved since `start`: its widgets call these, in any order, and a save that is refused
-- commits the fields.
pub data Edited (start : ProfileEditor) : ProfileEditor → Type 0 where
  as_opened : Edited start start
  target_typed :
      {e : ProfileEditor} (fields : TargetFields)
      → Edited start e
      → Edited start (record e { targets = record e.targets { fields = fields } })
  target_selected :
      {e : ProfileEditor} (i : ℤ)
      → Edited start e
      → Edited start (record e { targets = select target_form i e.targets })
  target_added :
      {e : ProfileEditor} (name : String) (raised : List ℤ)
      → Edited start e
      → Edited start (record e { targets = add_target name raised e.targets })
  target_removed :
      {e : ProfileEditor} (i : ℤ) (confirmed : Bool) (raised : List ℤ)
      → Edited start e
      → Edited start (record e { targets = remove_target i confirmed raised e.targets })
  ctrl_typed :
      {e : ProfileEditor} (fields : CtrlFields)
      → Edited start e
      → Edited start (record e { ctrls = record e.ctrls { fields = fields } })
  ctrl_selected :
      {e : ProfileEditor} (i : ℤ)
      → Edited start e
      → Edited start (record e { ctrls = select ctrl_form i e.ctrls })
  ctrl_added :
      {e : ProfileEditor} (name : String) (raised : List ℤ)
      → Edited start e
      → Edited start (record e { ctrls = add_ctrl name raised e.ctrls })
  ctrl_removed :
      {e : ProfileEditor} (i : ℤ) (confirmed : Bool) (raised : List ℤ)
      → Edited start e
      → Edited start (record e { ctrls = remove_ctrl i confirmed raised e.ctrls })
  save_refused : {e : ProfileEditor} → Edited start e → Edited start (committed e)

unfoldable pub working_cfg : ProfileEditor → Config
working_cfg e = record {
  lang = e.lang;
  targets = e.targets.profiles;
  controllers = e.ctrls.profiles;
}

module _ (json : ConfigJson) (os : Access) (trim_space : String → String) where
  -- Past `validateAndCollect`, with what writing the file gave.
  stored : Config → App → Option (List ℕ) × Bool → App × Bool
  stored cfg a (file, true) = (record a { cfg = cfg; file = file }, true)
  stored cfg a (file, false) = (record a { file = file }, false)

  -- `doSave`: the editor and the tray after it, and whether it saved. It is the first save of an editor since it
  -- was opened: after a save both hold the same lists, so that a token learned later reaches the editor too.
  unfoldable pub do_save : ProfileEditor → App → ProfileEditor × App × Bool
  unfolding stored committed working_cfg
  do_save e a =
      let cfg = working_cfg (committed e) in
      elim (validate trim_space cfg) [
        | some problem ↦ (committed e, a, false)
        | none ↦
            let (a', saved) = stored cfg a (save_config json os cfg a.file) in
            (committed e, a', saved)
      ]

  restart_target : String → Option ℕ → App → App
  restart_target name started a =
      if str_eq name "" then a else elim (find_target_profile name a.cfg.targets) [
        | none ↦ a
        | some tp ↦ start_target tp started a
      ]

  restart_ctrl : String → List ControllerProfile → Option ℕ → App → App
  restart_ctrl name cps started a =
      if str_eq name "" then a else elim (find_controller_profile name cps) [
        | none ↦ a
        | some cp ↦ start_controller cp started a
      ]

  restarted : Option ℕ → Option ℕ → ProfileEditor × App × Bool → ProfileEditor × App
  unfolding restart_target restart_ctrl
  restarted target ctrl (e, a, true) =
      (e, restart_ctrl a.ctrl.name a.cfg.controllers ctrl (restart_target a.target.name target a))
  restarted target ctrl (e, a, false) = (e, a)

  -- `doSaveAndRestart`, with what starting the two processes would give.
  unfoldable pub do_save_and_restart :
      Option ℕ → Option ℕ → ProfileEditor → App → ProfileEditor × App
  unfolding restarted
  do_save_and_restart target ctrl e a = restarted target ctrl (do_save e a)
