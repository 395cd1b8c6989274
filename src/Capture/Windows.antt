-- ===== src/Capture/Windows.antt =====
-- internal/capture/capture_windows.go: the low-level hooks. A hook call returns the new source and
-- whether the input is suppressed (the hook returns 1) or passed on to `CallNextHookEx`.
pub mod Hotkey
pub mod Suppress
pub mod Run
use Prim.Native.Nat.{bit_and}
use text.Mathlib.Text.{◌==◌ as str_eq}
use ea_share.Base.{
  ℕ, ◌+◌, ◌-◌, ◌/◌, ◌%◌, ◌^◌, ◌≡◌, Bool, true, false, not, ◌&&◌, ◌||◌, Option, none, some, List, [],
  ◌==◌, ltb, if◌then◌else◌, ℤ, pos, negsuc, ltb_ℤ, leb_ℤ, eqb_ℤ, add32, sub32,
}
use ea_share.Float.{Float, fzero, clamp01}
use ea_share.Screen.{Bounds, Point}
use ea_share.Keys.{Name}
use ea_share.Keys.Windows.{vk_to_name}
use ea_share.Protocol.{Edge, Button}
use ea_share.Capture.{
  Event, key, mouse_move, mouse_button, mouse_wheel, edge_crossed, hotkey_paste, send_event,
}

-- `windowsSource`. `edge` is `none` for the empty string of a plain source.
pub record Source (fl : Float) : Type 0 where
  pub events : List (Event fl)
  pub edge : Option Edge
  pub bounds : Bounds
  pub engaged : Bool
  pub ctrl_held : Bool
  pub alt_held : Bool
  pub hotkey_v_down : Bool

-- Whether the current event is forwarded, and whether it is suppressed.
unfoldable pub forward_and_suppress : {fl : Float} → Source fl → Bool × Bool
forward_and_suppress s = elim s.edge [ none ↦ (true, false) | some e ↦ (s.engaged, s.engaged) ]

unfoldable pub send : {fl : Float} → Event fl → Source fl → Source fl
send {fl} e s = record s { events = send_event fl e s.events }

-- `if forward { s.sendEvent(e) }`.
unfoldable pub send_if : {fl : Float} → Bool → Event fl → Source fl → Source fl
unfolding send
send_if b e s = if b then send e s else s

unfoldable pub is_control : Name → Bool
is_control n = str_eq n "ControlLeft" || str_eq n "ControlRight"

unfoldable pub is_alt : Name → Bool
is_alt n = str_eq n "AltLeft" || str_eq n "AltRight"

unfoldable pub is_v : Name → Bool
is_v n = str_eq n "V"

-- The first switch of `keyboardProc`: the modifiers of the chord.
unfoldable pub track_modifiers : {fl : Float} → Option Name → Bool → Source fl → Source fl
track_modifiers none down s = s
track_modifiers (some n) down s =
    if is_control n
    then record s { ctrl_held = down }
    else if is_alt n
    then record s { alt_held = down }
    else s

-- `default` of the second switch.
unfoldable pub forward_key : {fl : Float} → Option Name → Bool → Source fl → Source fl × Bool
unfolding forward_and_suppress send_if
forward_key none down s = (s, (forward_and_suppress s).1)
forward_key (some n) down s =
    (send_if (forward_and_suppress s).0 (key n down) s, (forward_and_suppress s).1)

abbrev known_v : Option Name → Bool
known_v none = false
known_v (some n) = is_v n

-- The second switch.
unfoldable pub press_key : {fl : Float} → Option Name → Bool → Source fl → Source fl × Bool
unfolding forward_key send_if
press_key name down s =
    if known_v name && down && s.ctrl_held && s.alt_held
    then (send_if (not s.hotkey_v_down) hotkey_paste (record s { hotkey_v_down = true }), true)
    else if known_v name && not down && s.hotkey_v_down
    then (record s { hotkey_v_down = false }, true)
    else forward_key name down s

-- A key event that is not injected.
unfoldable pub physical_key : {fl : Float} → Option Name → Bool → Source fl → Source fl × Bool
unfolding press_key track_modifiers
physical_key name down s = press_key name down (track_modifiers name down s)

abbrev pub wm_key_down : ℕ
wm_key_down = 0x0100

abbrev pub wm_sys_key_down : ℕ
wm_sys_key_down = 0x0104

-- `kb.Flags & (llkhfInjected | llkhfLowerILInjected) != 0`.
unfoldable pub key_injected : ℕ → Bool
key_injected flags = not (bit_and flags 0x12 == 0)

unfoldable pub keyboard_proc : {fl : Float} → ℤ → ℕ → ℕ → ℕ → Source fl → Source fl × Bool
unfolding physical_key
keyboard_proc n_code w_param vk_code flags s =
    if ltb_ℤ n_code (pos 0) || key_injected flags
    then (s, false)
    else physical_key (vk_to_name vk_code)
        (w_param % 2 ^ 32 == wm_key_down || w_param % 2 ^ 32 == wm_sys_key_down) s

-- Whether `pt` has reached the edge of `b`, and how far along that edge.
unfoldable pub edge_reached : (fl : Float) → Edge → Bounds → Point → Option fl.F
edge_reached fl Edge.left b pt =
    if leb_ℤ pt.px b.x
    then some (clamp01 fl (fl.div (fl.of_int (sub32 pt.py b.y)) (fl.of_int b.h)))
    else none
edge_reached fl Edge.right b pt =
    if leb_ℤ (sub32 (add32 b.x b.w) (pos 1)) pt.px
    then some (clamp01 fl (fl.div (fl.of_int (sub32 pt.py b.y)) (fl.of_int b.h)))
    else none
edge_reached fl Edge.top b pt =
    if leb_ℤ pt.py b.y
    then some (clamp01 fl (fl.div (fl.of_int (sub32 pt.px b.x)) (fl.of_int b.w)))
    else none
edge_reached fl Edge.bottom b pt =
    if leb_ℤ (sub32 (add32 b.y b.h) (pos 1)) pt.py
    then some (clamp01 fl (fl.div (fl.of_int (sub32 pt.px b.x)) (fl.of_int b.w)))
    else none
edge_reached fl (Edge.other _) b pt = none

-- The case `wmMouseMove` for an edge-aware source that is not engaged.
unfoldable pub watch_edge : {fl : Float} → Edge → Point → Source fl → Source fl × Bool
watch_edge {fl} e pt s = elim (edge_reached fl e s.bounds pt) [
  | none ↦ (s, false)
  | some rel_pos ↦ (send (edge_crossed rel_pos) (record s { engaged = true }), true)
]

-- The case `wmMouseMove`.
unfoldable pub move_pointer : {fl : Float} → Point → Source fl → Source fl × Bool
unfolding watch_edge send
move_pointer pt s = elim s.edge [
  | none ↦ (s, false)
  | some e ↦ if s.engaged then (s, true) else watch_edge e pt s
]

-- The button and wheel cases.
unfoldable pub forward_event : {fl : Float} → Event fl → Source fl → Source fl × Bool
unfolding forward_and_suppress send_if
forward_event e s = (send_if (forward_and_suppress s).0 e s, (forward_and_suppress s).1)

-- `int32(int16(uint16(data >> 16))) / 120`: division discards the fraction.
unfoldable pub wheel_notches : ℕ → ℤ
wheel_notches mouse_data =
    let hi = mouse_data / 2 ^ 16 % 2 ^ 16 in
    if ltb hi (2 ^ 15)
    then pos (hi / 120)
    else let n = (2 ^ 16 - hi) / 120 in if n == 0 then pos 0 else negsuc (n - 1)

unfoldable pub mouse_message : {fl : Float} → ℕ → Point → ℕ → Source fl → Source fl × Bool
unfolding move_pointer forward_event
mouse_message message pt mouse_data s =
    if message == 0x0200
    then move_pointer pt s
    else if message == 0x0201
    then forward_event (mouse_button Button.left true) s
    else if message == 0x0202
    then forward_event (mouse_button Button.left false) s
    else if message == 0x0204
    then forward_event (mouse_button Button.right true) s
    else if message == 0x0205
    then forward_event (mouse_button Button.right false) s
    else if message == 0x0207
    then forward_event (mouse_button Button.middle true) s
    else if message == 0x0208
    then forward_event (mouse_button Button.middle false) s
    else if message == 0x020A
    then forward_event (mouse_wheel (wheel_notches mouse_data)) s
    else (s, false)

-- `ms.Flags & (llmhfInjected | llmhfLowerILInjected) != 0`.
unfoldable pub mouse_injected : ℕ → Bool
mouse_injected flags = not (bit_and flags 0x03 == 0)

unfoldable pub mouse_proc : {fl : Float} → ℤ → ℕ → Point → ℕ → ℕ → Source fl → Source fl × Bool
unfolding mouse_message
mouse_proc n_code w_param pt mouse_data flags s =
    if ltb_ℤ n_code (pos 0) || mouse_injected flags
    then (s, false)
    else mouse_message (w_param % 2 ^ 32) pt mouse_data s

-- What `GetRawInputData` left in the buffer: the sign of its answer, the device type, the flags and
-- the motion.
pub record RawInput : Type 0 where
  pub failed : Bool
  pub dw_type : ℕ
  pub us_flags : ℕ
  pub last_x : ℤ
  pub last_y : ℤ

unfoldable pub handle_raw_input : {fl : Float} → RawInput → Source fl → Source fl
unfolding forward_and_suppress send_if
handle_raw_input r s =
    if r.failed || not (r.dw_type == 0) || not (bit_and r.us_flags 0x01 == 0)
    then s
    else if eqb_ℤ r.last_x (pos 0) && eqb_ℤ r.last_y (pos 0)
    then s
    else send_if (forward_and_suppress s).0 (mouse_move r.last_x r.last_y) s

-- `Disengage`, up to the call of `screen.SetCursorPos`.
unfoldable pub release : {fl : Float} → Source fl → Source fl
release s = record s { engaged = false }
