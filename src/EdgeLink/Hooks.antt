-- ===== src/EdgeLink/Hooks.antt =====
-- What a hook call does to the engagement and to the crossings that wait in the channel.
use ea_share.Base.{
  ℕ, ◌+◌, ◌<◌, ◌≡◌, refl, ap, Bool, true, false, not, ◌||◌, Option, none, some, List, [], ◌∷◌, ◌++◌,
  arith, length, Bool-cases, Option-cases, inl, inr, ℤ, pos, ltb_ℤ, ◌%◌, ◌^◌, ◌==◌,
}
use ea_share.Float.{Float}
use ea_share.Screen.{Point}
use ea_share.Keys.{Name}
use ea_share.Keys.Windows.{vk_to_name}
use ea_share.Protocol.{Edge, Button}
use ea_share.Capture.{
  Event, key, mouse_move, mouse_button, mouse_wheel, edge_crossed, hotkey_paste, send_event,
  capacity,
}
use ea_share.Capture.Windows.{
  Source, send, send_if, track_modifiers, forward_and_suppress, forward_key, press_key,
  physical_key, keyboard_proc, key_injected, mouse_injected, wm_key_down, wm_sys_key_down,
  edge_reached, watch_edge, move_pointer, forward_event, mouse_message, mouse_proc, wheel_notches,
  RawInput, handle_raw_input,
}

-- How many crossings wait.
abbrev pub crossings : {fl : Float} → List (Event fl) → ℕ
crossings [] = 0
crossings (edge_crossed r ∷ es) = 1 + crossings es
crossings (key n d ∷ es) = crossings es
crossings (mouse_move x y ∷ es) = crossings es
crossings (mouse_button b d ∷ es) = crossings es
crossings (mouse_wheel a ∷ es) = crossings es
crossings (hotkey_paste ∷ es) = crossings es

abbrev pub count : Bool → ℕ
count false = 0
count true = 1

-- The engagement and the crossings that wait grow together.
abbrev pub IsBalanced : {fl : Float} → Source fl → Source fl → Type 0
IsBalanced s t = crossings t.events + count s.engaged ≡ crossings s.events + count t.engaged

module _ {fl : Float} where
  pub crossings-append :
      (es fs : List (Event fl)) → crossings (es ++ fs) ≡ crossings es + crossings fs
  crossings-append [] fs = omega arith
  crossings-append (edge_crossed r ∷ es) fs = omega (arith, crossings-append es fs)
  crossings-append (key n d ∷ es) fs = crossings-append es fs
  crossings-append (mouse_move x y ∷ es) fs = crossings-append es fs
  crossings-append (mouse_button b d ∷ es) fs = crossings-append es fs
  crossings-append (mouse_wheel a ∷ es) fs = crossings-append es fs
  crossings-append (hotkey_paste ∷ es) fs = crossings-append es fs

  -- An event that is no crossing, sent or dropped.
  send-quiet :
      (e : Event fl) (s : Source fl)
      → crossings (e ∷ []) ≡ 0
      → crossings (send e s).events ≡ crossings s.events
  unfolding send send_event
  send-quiet e s h = ground (arith, crossings-append s.events (e ∷ []))

  send_if-quiet :
      (b : Bool) (e : Event fl) (s : Source fl)
      → crossings (e ∷ []) ≡ 0
      → IsBalanced s (send_if b e s)
  unfolding send_if send
  send_if-quiet b e s h = ground (arith, send-quiet e s h)

  track_modifiers-quiet :
      (name : Option Name) (down : Bool) (s : Source fl)
      → ((track_modifiers name down s).events ≡ s.events)
        × ((track_modifiers name down s).engaged ≡ s.engaged)
  unfolding track_modifiers
  track_modifiers-quiet none down s = (refl, refl)
  track_modifiers-quiet (some n) down s = (ground arith, ground arith)

  press_key-quiet :
      (name : Option Name) (down : Bool) (s : Source fl) → IsBalanced s (press_key name down s).0
  unfolding press_key forward_key
  press_key-quiet none down s = ground arith
  press_key-quiet (some n) down s = ground (
    arith,
    send_if-quiet (not s.hotkey_v_down) hotkey_paste (record s { hotkey_v_down = true }),
    send_if-quiet (forward_and_suppress s).0 (key n down) s,
  )

  physical_key-IsBalanced :
      (name : Option Name) (down : Bool) (s : Source fl) → IsBalanced s (physical_key name down s).0
  unfolding physical_key
  physical_key-IsBalanced name down s =
      let t = track_modifiers name down s in
      omega (
        arith,
        press_key-quiet name down t,
        ap crossings (track_modifiers-quiet name down s).0,
        ap count (track_modifiers-quiet name down s).1,
      )

  pub keyboard_proc-IsBalanced :
      (n_code : ℤ) (w_param vk_code flags : ℕ) (s : Source fl)
      → IsBalanced s (keyboard_proc n_code w_param vk_code flags s).0
  unfolding keyboard_proc
  keyboard_proc-IsBalanced n_code w_param vk_code flags s =
      elim (Bool-cases (ltb_ℤ n_code (pos 0) || key_injected flags)) [
        | inl skip ↦ rw skip refl
        | inr ours ↦ rw ours (
            physical_key-IsBalanced (vk_to_name vk_code)
              (w_param % 2 ^ 32 == wm_key_down || w_param % 2 ^ 32 == wm_sys_key_down) s)
      ]

  watch_edge-IsBalanced :
      (e : Edge) (pt : Point) (s : Source fl)
      → s.engaged ≡ false
      → length s.events < capacity
      → IsBalanced s (watch_edge e pt s).0
  unfolding watch_edge send send_event
  watch_edge-IsBalanced e pt s idle room = elim (Option-cases (edge_reached fl e s.bounds pt)) [
    | inl off ↦ rw (off, watch_edge) refl
    | inr (r, on) ↦
        rw (on, watch_edge) (ground (arith, crossings-append s.events (edge_crossed r ∷ [])))
  ]

  move_pointer-IsBalanced :
      (pt : Point) (s : Source fl) → length s.events < capacity → IsBalanced s (move_pointer pt s).0
  unfolding move_pointer
  move_pointer-IsBalanced pt s room = elim (Option-cases s.edge) [
    | inl legacy ↦ rw (legacy, move_pointer) refl
    | inr (e, aware) ↦ ground (arith, watch_edge-IsBalanced e pt s)
  ]

  forward_event-IsBalanced :
      (e : Event fl) (s : Source fl) → crossings (e ∷ []) ≡ 0 → IsBalanced s (forward_event e s).0
  unfolding forward_event
  forward_event-IsBalanced e s h = send_if-quiet (forward_and_suppress s).0 e s h

  mouse_message-IsBalanced :
      (message mouse_data : ℕ) (pt : Point) (s : Source fl)
      → length s.events < capacity
      → IsBalanced s (mouse_message message pt mouse_data s).0
  unfolding mouse_message
  mouse_message-IsBalanced message mouse_data pt s room =
      let sent : (e : Event fl) → crossings (e ∷ []) ≡ 0 → IsBalanced s (forward_event e s).0 =
        λ e h. forward_event-IsBalanced e s h in
      ground (
        arith,
        move_pointer-IsBalanced pt s room,
        sent (mouse_button Button.left true) refl,
        sent (mouse_button Button.left false) refl,
        sent (mouse_button Button.right true) refl,
        sent (mouse_button Button.right false) refl,
        sent (mouse_button Button.middle true) refl,
        sent (mouse_button Button.middle false) refl,
        sent (mouse_wheel (wheel_notches mouse_data)) refl,
      )

  pub mouse_proc-IsBalanced :
      (n_code : ℤ) (w_param : ℕ) (pt : Point) (mouse_data flags : ℕ) (s : Source fl)
      → length s.events < capacity
      → IsBalanced s (mouse_proc n_code w_param pt mouse_data flags s).0
  unfolding mouse_proc
  mouse_proc-IsBalanced n_code w_param pt mouse_data flags s room =
      elim (Bool-cases (ltb_ℤ n_code (pos 0) || mouse_injected flags)) [
        | inl skip ↦ rw skip refl
        | inr ours ↦ rw ours (mouse_message-IsBalanced (w_param % 2 ^ 32) mouse_data pt s room)
      ]

  pub handle_raw_input-IsBalanced :
      (r : RawInput) (s : Source fl) → IsBalanced s (handle_raw_input r s)
  unfolding handle_raw_input
  handle_raw_input-IsBalanced r s =
      ground (arith, send_if-quiet (forward_and_suppress s).0 (mouse_move r.last_x r.last_y) s refl)
