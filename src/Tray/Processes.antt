-- ===== src/Tray/Processes.antt =====
-- cmd/tray/menu.go and process.go: the target and the controller that the tray runs, what their output
-- tells, and their end.
pub mod Runs
pub mod Tracking
use text.Mathlib.Text.{◌==◌ as str_eq}
use ea_share.Base.{
  ℕ, ◌==◌, String, Bool, true, false, ◌&&◌, ◌||◌, Option, none, some, List, [], ◌∷◌, ◌++◌, Bytes,
  if◌then◌else◌,
}
use ea_share.Tray.Token.{is_likely_token}
use ea_share.Tray.Profiles.{TargetProfile, ControllerProfile, Config}
use ea_share.Tray.Store.{ConfigJson, Access, save_config}

pub data ConnState : Type 0 where
  conn_none conn_waiting conn_tcp conn_udp : ConnState

-- `running…`, `running…Name` and `running…Conn`. A process number stands for a `*runningProc`.
pub record Slot : Type 0 where
  pub running : Option ℕ
  pub name : String
  pub conn : ConnState

-- `app`, with the profiles' file, the current language, and the operating system's view: which processes
-- are alive, and the command line of each.
pub record App : Type 0 where
  pub cfg : Config
  pub file : Option Bytes
  pub lang : String
  pub target : Slot
  pub ctrl : Slot
  pub alive : ℕ → Bool
  pub command : ℕ → List String

-- What the `onLine` of a target keeps: its profile's name, and whether the token is still to come.
pub record Watch : Type 0 where
  pub name : String
  pub awaiting_generated_token : Bool

-- `strings.TrimSpace` and `strings.Contains`, the text first.
pub record Strings : Type 0 where
  pub trim_space : String → String
  pub contains : String → String → Bool

-- `Stop`.
unfoldable pub kill : Option ℕ → (ℕ → Bool) → ℕ → Bool
kill none alive q = alive q
kill (some p) alive q = if q == p then false else alive q

unfoldable pub spawn : ℕ → (ℕ → Bool) → ℕ → Bool
spawn p alive q = if q == p then true else alive q

abbrev idle_slot : Slot
idle_slot = record { running = none; name = ""; conn = conn_none }

unfoldable pub set_target_conn : ConnState → App → App
set_target_conn c a = record a { target = record a.target { conn = c } }

unfoldable pub set_ctrl_conn : ConnState → App → App
set_ctrl_conn c a = record a { ctrl = record a.ctrl { conn = c } }

unfoldable pub at_least_tcp : ConnState → ConnState
at_least_tcp conn_none = conn_tcp
at_least_tcp conn_waiting = conn_tcp
at_least_tcp conn_tcp = conn_tcp
at_least_tcp conn_udp = conn_udp

unfoldable pub upgrade_target_conn_at_least_tcp : App → App
unfolding at_least_tcp
upgrade_target_conn_at_least_tcp a = record a {
  target = record a.target { conn = at_least_tcp a.target.conn };
}

unfoldable pub upgrade_ctrl_conn_at_least_tcp : App → App
unfolding at_least_tcp
upgrade_ctrl_conn_at_least_tcp a = record a {
  ctrl = record a.ctrl { conn = at_least_tcp a.ctrl.conn };
}

unfoldable pub save_token : String → String → List TargetProfile → List TargetProfile
save_token name token [] = []
save_token name token (tp ∷ tps) =
    let rest = save_token name token tps in
    (if str_eq tp.name name then record tp { token = token } else tp) ∷ rest

module _ (json : ConfigJson) (os : Access) where
  unfoldable pub save_generated_target_token : String → String → App → App
  unfolding save_token
  save_generated_target_token name token a =
      let cfg = record a.cfg { targets = save_token name token a.cfg.targets } in
      record a { cfg = cfg; file = (save_config json os cfg a.file).0 }

  module _ (strings : Strings) where
    -- The `switch` in the target's `onLine`.
    unfoldable pub track : String → App → App
    track line a =
        if strings.contains line "UDP mouse channel enabled"
        then set_target_conn conn_udp a
        else if strings.contains line "authenticated, now controlling this machine"
        then upgrade_target_conn_at_least_tcp a
        else if strings.contains line "disconnected"
            || strings.contains line "auth failed"
            || strings.contains line "awaiting auth"
        then set_target_conn conn_waiting a
        else a

    -- A line that is not empty, past the test for the announcement of the token.
    unfoldable pub note_token : String → Watch → App → Watch × App
    note_token line w a =
        if w.awaiting_generated_token && is_likely_token line
        then (
          record w { awaiting_generated_token = false },
          save_generated_target_token w.name line a,
        )
        else (w, a)

    unfoldable pub on_line : String → Watch → App → Watch × App
    on_line text w a =
        let line = strings.trim_space text in
        if str_eq line ""
        then (w, a)
        else if w.awaiting_generated_token && strings.contains line "generated one for this session"
        then (w, a)
        else let (w', a') = note_token line w a in (w', track line a')

    -- The goroutine of `startProcess` that hands the lines on.
    unfoldable pub on_lines : List String → Watch → App → Watch × App
    on_lines [] w a = (w, a)
    on_lines (line ∷ lines) w a = let (w', a') = on_line line w a in on_lines lines w' a'

    unfoldable pub track_ctrl : String → App → App
    track_ctrl line a =
        if strings.contains line "UDP mouse channel active"
        then set_ctrl_conn conn_udp a
        else if strings.contains line "Connected and authenticated to"
        then upgrade_ctrl_conn_at_least_tcp a
        else a

    -- The `onLine` of a controller.
    unfoldable pub on_ctrl_line : String → App → App
    on_ctrl_line text a =
        let line = strings.trim_space text in if str_eq line "" then a else track_ctrl line a

-- The watch that `startTarget` sets up, and the command line.
unfoldable pub watch_of : TargetProfile → Watch
watch_of tp = record { name = tp.name; awaiting_generated_token = str_eq tp.token "" }

unfoldable pub target_args : TargetProfile → List String
target_args tp =
    ("-listen" ∷ tp.listen ∷ []) ++ (if str_eq tp.token "" then [] else "-token" ∷ tp.token ∷ [])

unfoldable pub ctrl_args : ControllerProfile → List String
ctrl_args cp =
    (("-connect" ∷ cp.connect ∷ "-token" ∷ cp.token ∷ "-yes" ∷ [])
      ++ (if str_eq cp.edge "" then [] else "-edge" ∷ cp.edge ∷ []))
    ++ (if cp.udp_mouse then "-udp-mouse" ∷ [] else [])

-- `onExit` of a process that was started for the profile `name`.
unfoldable pub on_target_exit : String → App → App
on_target_exit name a = if str_eq a.target.name name then record a { target = idle_slot } else a

unfoldable pub on_ctrl_exit : String → App → App
on_ctrl_exit name a = if str_eq a.ctrl.name name then record a { ctrl = idle_slot } else a

unfoldable pub stop_target : App → App
stop_target a = record a { target = idle_slot; alive = kill a.target.running a.alive }

unfoldable pub stop_controller : App → App
stop_controller a = record a { ctrl = idle_slot; alive = kill a.ctrl.running a.alive }

-- `startTarget` up to the start of the process: the slot is cleared under the lock, and then the process that
-- it held is stopped.
unfoldable pub clear_target : App → App
clear_target a = record a {
  target = record a.target { running = none; name = "" };
  alive = kill a.target.running a.alive;
}

-- `startProcess`, where it succeeds with a new process, outside the lock.
unfoldable pub launch : ℕ → List String → App → App
unfolding spawn
launch p args a = record a {
  alive = spawn p a.alive;
  command = λ q. if q == p then args else a.command q;
}

-- The end of `startTarget`, under the lock again.
unfoldable pub register_target : TargetProfile → ℕ → App → App
register_target tp p a = record a {
  target = record { running = some p; name = tp.name; conn = conn_waiting };
}

-- All of it, where nothing comes between; `startProcess` gives a new process, or fails.
unfoldable pub start_target : TargetProfile → Option ℕ → App → App
start_target tp started a = elim started [
  | none ↦ clear_target a
  | some p ↦ register_target tp p (launch p (target_args tp) (clear_target a))
]

unfoldable pub clear_controller : App → App
clear_controller a = record a {
  ctrl = record a.ctrl { running = none; name = "" };
  alive = kill a.ctrl.running a.alive;
}

unfoldable pub register_controller : ControllerProfile → ℕ → App → App
register_controller cp p a = record a {
  ctrl = record { running = some p; name = cp.name; conn = conn_waiting };
}

unfoldable pub start_controller : ControllerProfile → Option ℕ → App → App
start_controller cp started a = elim started [
  | none ↦ clear_controller a
  | some p ↦ register_controller cp p (launch p (ctrl_args cp) (clear_controller a))
]

-- A click on a profile in the menu.
unfoldable pub toggle_target : TargetProfile → Option ℕ → App → App
toggle_target tp started a =
    if str_eq a.target.name tp.name then stop_target a else start_target tp started a

unfoldable pub toggle_controller : ControllerProfile → Option ℕ → App → App
toggle_controller cp started a =
    if str_eq a.ctrl.name cp.name then stop_controller a else start_controller cp started a

-- `onExit` of the tray itself.
unfoldable pub on_exit : App → App
on_exit a = record a { alive = kill a.ctrl.running (kill a.target.running a.alive) }

-- A process that ends by itself.
unfoldable pub died : ℕ → App → App
died p a = record a { alive = kill (some p) a.alive }
