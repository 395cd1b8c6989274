-- ===== src/Examples/Hooks.antt =====
-- The hooks of the Windows source at concrete inputs.
use ea_share.Base.{
  ◌≤◌, replicate, length-replicate, length, ◌≡◌, refl, none, some, pos, arith, true, false, inl, [],
  ◌∷◌, ◌++◌, if◌then◌else◌,
}
use ea_share.Screen.{Point}
use ea_share.Protocol.{Edge}
use ea_share.Capture.{Event, capacity, key, hotkey_paste}
use ea_share.Capture.Windows.Run as Run
use ea_share.Capture.Windows.Run.{Answers, pressed, got}
use ea_share.Capture.Windows.Run.Released.{held, answers, closes, run_stopped}
use ea_share.Capture.Windows.{RawInput, mouse_message, edge_reached, Source, physical_key, is_v}
use ea_share.Capture.Windows.Hotkey.{released_chord_sticks}
use ea_share.Capture.Windows.Suppress.{crossing_dropped}
use ea_share.Examples.Rational.{frac, rational}

-- Engaged at the right edge, with Ctrl and Alt held.
abbrev chord : Source rational
chord = record {
  events = [];
  edge = some Edge.right;
  bounds = record { x = pos 0; y = pos 0; w = pos 1920; h = pos 1080 };
  engaged = true;
  ctrl_held = true;
  alt_held = true;
  hotkey_v_down = false;
}

-- The chord has fired and Ctrl was released.
abbrev half_released : Source rational
half_released = record chord { ctrl_held = false; hotkey_v_down = true; events = hotkey_paste ∷ [] }

abbrev plain : Source rational
plain = record chord { edge = none; engaged = false }

released_chord_sticks_example :
    let t = (physical_key (some "V") true half_released).0 in
    (t.events ≡ half_released.events ++ (key "V" true ∷ []))
    × ((physical_key (some "V") false t).0.events ≡ t.events)
    × ((physical_key (some "V") false t).1 ≡ true)
released_chord_sticks_example =
    released_chord_sticks half_released Edge.right refl refl refl (inl refl) (omega arith)

a_is_not_v : is_v "A" ≡ false
unfolding is_v
a_is_not_v = refl

abbrev pointer : Point
pointer = record { px = pos 1919; py = pos 10 }

abbrev paste : Event rational
paste = hotkey_paste

-- Waiting at its edge, with a channel that nobody has read from.
abbrev flooded : Source rational
flooded = record chord { engaged = false; events = replicate capacity paste }

flooded_length : capacity ≤ length flooded.events
flooded_length = omega (arith, length-replicate capacity paste)

flooded_reaches :
    edge_reached rational Edge.right flooded.bounds pointer ≡ some (frac (pos 10) 1079)
unfolding edge_reached ea_share.Base.◌+ℤ◌ ea_share.Base.◌*ℤ◌ ea_share.Float.clamp01
    ea_share.Base.sub32 ea_share.Base.◌-ℤ◌ ea_share.Base.add32
flooded_reaches = refl

crossing_dropped_example :
    let (t, suppressed) = mouse_message 0x0200 pointer 0 flooded in
    (t ≡ record flooded { engaged = true })
    × (suppressed ≡ true)
    × (mouse_message 0x0200 (record { px = pos 5; py = pos 5 }) 0 t ≡ (t, true))
crossing_dropped_example =
    crossing_dropped 0 pointer (record { px = pos 5; py = pos 5 }) flooded Edge.right
      (frac (pos 10) 1079) refl refl flooded_reaches flooded_length

abbrev no_mouse_hook : Answers
no_mouse_hook = record {
  class_name = true;
  register_class = true;
  create_window = true;
  register_raw_input = true;
  hook_keyboard = true;
  hook_mouse = false;
}

abbrev nothing_raw : RawInput
nothing_raw = record { failed = true; dw_type = 0; us_flags = 0; last_x = pos 0; last_y = pos 0 }

abbrev all_hooked : Answers
all_hooked = record no_mouse_hook { hook_mouse = true }

run_stopped_example :
    let t =
      Run.run_thread all_hooked
        (pressed (pos 0) 0x0100 0x43 0 ∷ got 1 0x00FF nothing_raw ∷ []
          ++ Run.post_quit 9 nothing_raw)
        chord in
    (t.ended ≡ true) × (held t.calls [] ≡ some []) × (answers t.calls ≡ 1) × (closes t.calls ≡ 1)
run_stopped_example =
    run_stopped all_hooked (pressed (pos 0) 0x0100 0x43 0 ∷ got 1 0x00FF nothing_raw ∷ [])
      nothing_raw 9 chord (ground arith)
