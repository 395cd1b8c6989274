-- ===== src/Capture/Windows/Run.antt =====
-- internal/capture/capture_windows.go: the thread of `windowsSource`, from the hidden window and the two hooks to the
-- end of its message loop.
pub mod Released
use ea_share.Base.{
  ℕ, ◌%◌, ◌^◌, Bool, true, false, not, ◌||◌, ◌&&◌, List, [], ◌∷◌, ◌++◌, ltb, ◌==◌, if◌then◌else◌, ℤ,
}
use ea_share.Float.{Float}
use ea_share.Screen.{Point}
use ea_share.Capture.Windows.{Source, RawInput, keyboard_proc, mouse_proc, handle_raw_input}

-- What the thread holds.
pub data Resource : Type 0 where
  class window keyboard_hook mouse_hook : Resource

-- What it does with the system and the channels: `fail` and `ready` are what `Start` waits for, `close` closes
-- `s.events`.
pub data Call : Type 0 where
  acquire give_back : Resource → Call
  watch_mouse fail ready close : Call

-- Whether each call of the system succeeds.
pub record Answers : Type 0 where
  pub class_name : Bool
  pub register_class : Bool
  pub create_window : Bool
  pub register_raw_input : Bool
  pub hook_keyboard : Bool
  pub hook_mouse : Bool

-- What `GetMessage` meets: a call of a hook while it waits, or a message with which it returns, of a kind and
-- with the raw input that belongs to it.
pub data Pumped : Type 0 where
  pressed : ℤ → ℕ → ℕ → ℕ → Pumped
  pointed : ℤ → ℕ → Point → ℕ → ℕ → Pumped
  got : ℕ → ℕ → RawInput → Pumped

-- The calls in order, the source, and whether the thread has ended.
pub record Thread (fl : Float) : Type 0 where
  pub calls : List Call
  pub source : Source fl
  pub ended : Bool

-- The calls of `createRawInputWindow`, and whether it succeeded.
unfoldable pub create_raw_input_window : Answers → List Call × Bool
create_raw_input_window a =
    if not a.class_name || not a.register_class
    then ([], false)
    else if not a.create_window
    then (acquire class ∷ give_back class ∷ [], false)
    else if not a.register_raw_input
    then (acquire class ∷ acquire window ∷ give_back window ∷ give_back class ∷ [], false)
    else (acquire class ∷ acquire window ∷ watch_mouse ∷ [], true)

-- The closure that it returns.
unfoldable pub unregister : List Call
unregister = give_back window ∷ give_back class ∷ []

-- `wndProc`.
unfoldable pub wnd_proc : {fl : Float} → ℕ → RawInput → Source fl → Source fl
wnd_proc u_msg raw s = if u_msg == 0x00FF then handle_raw_input raw s else s

-- `int32(ret) <= 0`.
unfoldable pub quits : ℕ → Bool
quits ret = let r = ret % 2 ^ 32 in r == 0 || not (ltb r (2 ^ 31))

-- The loop over what `GetMessage` meets: the source, and whether the loop has ended.
unfoldable pub pump : {fl : Float} → List Pumped → Source fl → Source fl × Bool
unfolding wnd_proc
pump [] s = (s, false)
pump (pressed n_code w_param vk_code flags ∷ es) s =
    pump es (keyboard_proc n_code w_param vk_code flags s).0
pump (pointed n_code w_param pt mouse_data flags ∷ es) s =
    pump es (mouse_proc n_code w_param pt mouse_data flags s).0
pump (got ret u_msg raw ∷ es) s = elim (quits ret) [
  | true ↦ (s, true)
  | false ↦ pump es (wnd_proc u_msg raw s)
]

-- `run` past both hooks; the deferred calls come last.
unfoldable pub pump_hooked : {fl : Float} → List Pumped → Source fl → List Call → Thread fl
unfolding unregister
pump_hooked es s calls =
    let (s', ended) = pump es s in
    record {
      calls =
          calls
          ++ (if ended
              then close ∷ give_back mouse_hook ∷ give_back keyboard_hook ∷ unregister
              else []);
      source = s';
      ended = ended;
    }

abbrev failed : {fl : Float} → Source fl → List Call → Thread fl
failed s calls = record { calls = calls; source = s; ended = true }

-- `run` with the two hooks.
unfoldable pub hook : {fl : Float} → Answers → List Pumped → Source fl → Thread fl
unfolding pump_hooked
hook a es s =
    if not a.hook_keyboard
    then failed s (fail ∷ unregister)
    else if not a.hook_mouse
    then failed s (acquire keyboard_hook ∷ fail ∷ give_back keyboard_hook ∷ unregister)
    else pump_hooked es s (acquire keyboard_hook ∷ acquire mouse_hook ∷ ready ∷ [])

-- `run`.
unfoldable pub run_thread : {fl : Float} → Answers → List Pumped → Source fl → Thread fl
unfolding hook create_raw_input_window
run_thread a es s =
    let (calls, created) = create_raw_input_window a in
    let t = hook a es s in
    if created then record t { calls = calls ++ t.calls } else failed s (calls ++ (fail ∷ []))

-- What `Stop` posts to a thread: nothing before there is one.
unfoldable pub post_quit : ℕ → RawInput → List Pumped
post_quit thread_id raw = if thread_id == 0 then [] else got 0 0x0012 raw ∷ []
