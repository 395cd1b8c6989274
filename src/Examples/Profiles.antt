-- ===== src/Examples/Profiles.antt =====
-- The tray at concrete profiles, clicks and output.
use text.Mathlib.Text.{◌==◌ as str_eq}
use ea_share.Base.{
  ℕ, ◌≡◌, ◌↔◌, refl, arith, String, true, false, none, some, [], ◌∷◌, pos, negsuc, All,
}
use ea_share.Tray.Profiles.{
  TargetProfile, ControllerProfile, Config, validate, edge_values, HasEdge, is_seen,
}
use ea_share.Tray.Profiles.Validation.{IsSaveable, validate-IsSaveable}
use ea_share.Tray.Store.{ConfigJson, Access, Profiles, change_lang, reload_config}
use ea_share.Tray.Processes.{
  App, Slot, Strings, conn_none, conn_udp, conn_waiting, start_target, stop_target, on_target_exit,
  on_exit, clear_target, launch, register_target, died, target_args, save_generated_target_token,
}
use ea_share.Tray.Processes.Runs.{
  Reach, here, next, tray, resting, target_cleared, target_launched, target_registered,
  process_ended, IsHeld, reached-IsHeld, stale_exit,
}
use ea_share.Tray.Editor.{select}
use ea_share.Tray.Editor.Forms.{
  TargetPage, CtrlPage, ctrl_form, add_target, remove_target, remove_ctrl,
}
use ea_share.Tray.Editor.Edits.{remove_exactly}
use ea_share.Tray.Editor.Saving.{
  ProfileEditor, as_opened, target_added, open_profile_editor, do_save,
}
use ea_share.Tray.Editor.Saving.Saved.{do_save_forgets_token}

abbrev desk : TargetProfile
desk = record { name = "desk"; listen = ":7777"; token = "" }

abbrev laptop : ControllerProfile
laptop = record {
  name = "laptop";
  connect = "there:7777";
  token = "t";
  edge = "right";
  udp_mouse = true;
}

abbrev tower : ControllerProfile
tower = record { name = "tower"; connect = "tower:7777"; token = "u"; edge = ""; udp_mouse = false }

abbrev cfg : Config
cfg = record { lang = "en"; targets = desk ∷ []; controllers = laptop ∷ tower ∷ [] }

abbrev json : ConfigJson
json = record { marshal = λ c. some (1 ∷ []); unmarshal = λ b. some (record cfg { lang = "pt" }) }

abbrev granting : Access
granting = record { has_dir = true; reads = true; writes = true }

abbrev same : String → String
same s = s

validate-IsSaveable_example : validate same cfg ≡ none ↔ IsSaveable same cfg
validate-IsSaveable_example = validate-IsSaveable same cfg

abbrev stored : Profiles
stored = record { cfg = cfg; lang = "en"; file = none }

abbrev idle : Slot
idle = record { running = none; name = ""; conn = conn_none }

abbrev app : App
app = record {
  cfg = cfg;
  file = none;
  lang = "en";
  target = idle;
  ctrl = idle;
  alive = λ q. false;
  command = λ q. [];
}

-- Every line but one kind of line is of no interest.
abbrev strings : Strings
strings = record { trim_space = same; contains = λ s t. str_eq s t }

-- Two targets are started, one after the other; the first one ends before it is registered.
abbrev first_start : App
first_start = register_target desk 8 (died 8 (launch 8 (target_args desk) (clear_target app)))

abbrev second_start : App
second_start = launch 9 (target_args desk) (clear_target first_start)

two_starts :
    Reach json granting strings
      (tray app resting resting)
      (tray (register_target desk 9 second_start) resting resting)
unfolding clear_target launch register_target died ea_share.Tray.Processes.kill
    ea_share.Tray.Processes.spawn
two_starts =
    next
      (next
        (next
          (next
            (next (next (next here (target_cleared desk)) (target_launched desk 8 refl))
              (process_ended 8))
            (target_registered desk 8))
          (target_cleared desk))
        (target_launched desk 9 refl))
      (target_registered desk 9)

reached-IsHeld_example :
    IsHeld (tray (register_target desk 9 second_start) resting resting)
    × ((q : ℕ) → (on_exit (register_target desk 9 second_start)).alive q ≡ true → false ≡ true)
reached-IsHeld_example = reached-IsHeld json granting strings (λ q. refl) two_starts

stale_exit_example :
    let b = on_target_exit "desk" (start_target desk (some 9) (start_target desk (some 8) app)) in
    (b.target.running ≡ none) × ((stop_target b).alive 9 ≡ true) × ((on_exit b).alive 9 ≡ true)
stale_exit_example = stale_exit desk 8 9 app (λ e. ground arith) refl

abbrev announcement : String
announcement = "generated one for this session"

abbrev token : String
token = "0123456789abcdef0123"

token_like : ea_share.Tray.Token.is_likely_token token ≡ true
unfolding ea_share.Tray.Token.is_likely_token ea_share.Tray.Token.all_hex
    ea_share.Tray.Token.contains_rune
token_like = refl

abbrev linked : App
linked = record app { target = record idle { conn = conn_udp } }

-- The first controller is shown, and its address edited.
abbrev page : CtrlPage
page = record {
  profiles = laptop ∷ tower ∷ [];
  selected = pos 0;
  fields = record { name = "laptop"; connect = "here:7777"; token = "t"; edge = pos 2; udp = true };
}

abbrev targets : TargetPage
targets = record {
  profiles = desk ∷ [];
  selected = pos 0;
  fields = record { name = "desk"; listen = ":7777"; token = "" };
}

edges_offered : All HasEdge (laptop ∷ tower ∷ [])
unfolding is_seen
edges_offered = (refl, (refl, tt))

remove_exactly_example :
    ((remove_target (pos 0) true (negsuc 0 ∷ []) targets).profiles ≡ [])
    × ((remove_ctrl (pos 0) true (negsuc 0 ∷ pos 0 ∷ []) page).profiles ≡ tower ∷ [])
remove_exactly_example =
    remove_exactly 0 0 (negsuc 0 ∷ []) (negsuc 0 ∷ pos 0 ∷ []) targets page (omega arith)
      (omega arith) edges_offered

abbrev editor : ProfileEditor
editor = record { lang = "en"; targets = targets; ctrls = page }

-- The controller runs.
abbrev running : App
running = record app { ctrl = record { running = some 4; name = "laptop"; conn = conn_waiting } }

-- What the save ends with.
abbrev after_save : App
after_save = record running {
  cfg = record cfg { controllers = record laptop { connect = "here:7777" } ∷ tower ∷ [] };
  file = some (1 ∷ []);
}

abbrev opened : ProfileEditor
opened = open_profile_editor editor.targets.fields editor.ctrls.fields [] [] running.cfg

-- A target is added.
abbrev edited : ProfileEditor
edited = record opened { targets = add_target "spare" [] opened.targets }

abbrev learned : App
learned = save_generated_target_token json granting "desk" token running

learned_saved : (do_save json granting same edited learned).2 ≡ true
unfolding do_save validate ea_share.Tray.Profiles.check_targets
    ea_share.Tray.Profiles.check_controllers ea_share.Tray.Profiles.target_problem
    ea_share.Tray.Profiles.controller_problem is_seen ea_share.Tray.Editor.Forms.commit_target
    ea_share.Tray.Editor.Forms.commit_ctrl ea_share.Tray.Editor.commit
    ea_share.Tray.Editor.commit_at ea_share.Tray.Editor.update ea_share.Tray.Editor.Forms.edge_at
    ea_share.Tray.Store.save_config save_generated_target_token open_profile_editor
    ea_share.Tray.Editor.Forms.refresh_target_list ea_share.Tray.Editor.Forms.refresh_ctrl_list
    ea_share.Tray.Editor.refresh ea_share.Tray.Editor.load ea_share.Tray.Editor.raise
    ea_share.Tray.Editor.shown ea_share.Tray.Profiles.index_of_edge add_target
    ea_share.Tray.Editor.add
learned_saved = refl

do_save_forgets_token_example :
    ((do_save json granting same edited learned).1.cfg
      ≡ (do_save json granting same edited running).1.cfg)
    × ((do_save json granting same edited learned).1.file
        ≡ (do_save json granting same edited running).1.file)
do_save_forgets_token_example =
    do_save_forgets_token json granting same editor.targets.fields editor.ctrls.fields [] [] edited
      "desk" token running learned (target_added "spare" [] as_opened) refl learned_saved
