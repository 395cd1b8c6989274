-- ===== src/Capture/Windows/Hotkey.antt =====
-- The Ctrl+Alt+V chord of `keyboardProc`.
use ea_share.Base.{
  ℕ, zero, suc, ◌<◌, ◌≡◌, refl, true, false, [], ◌∷◌, ◌++◌, arith, length, some, ◌⊎◌,
}
use ea_share.Float.{Float}
use ea_share.Protocol.{Edge}
use ea_share.Capture.{key, hotkey_paste, send_event, capacity}
use ea_share.Capture.Windows.{
  Source, send, forward_and_suppress, physical_key, is_control, is_alt, is_v,
}

-- The auto-repeat of a held V.
pub repeat_v : {fl : Float} → ℕ → Source fl → Source fl
repeat_v zero s = s
repeat_v (suc k) s = repeat_v k (physical_key (some "V") true s).0

-- The chord is held and has fired.
repeat_v-fired :
    {fl : Float} (k : ℕ) (s : Source fl)
    → s.ctrl_held ≡ true
    → s.alt_held ≡ true
    → s.hotkey_v_down ≡ true
    → (repeat_v k s).events ≡ s.events
unfolding repeat_v physical_key is_control is_alt is_v
repeat_v-fired zero s c a v = refl
repeat_v-fired (suc k) s c a v = ground (arith, repeat_v-fired k (physical_key (some "V") true s).0)

-- While Ctrl and Alt are held, a press of V fires the paste hotkey exactly once, however often the
-- held key repeats, and no repeat is sent as a key.
pub repeat_v-once :
    {fl : Float} (k : ℕ) (s : Source fl)
    → s.ctrl_held ≡ true
    → s.alt_held ≡ true
    → s.hotkey_v_down ≡ false
    → (repeat_v (suc k) s).events ≡ send_event fl hotkey_paste s.events
unfolding repeat_v physical_key is_control is_alt is_v send
repeat_v-once k s c a v = ground (arith, repeat_v-fired k (physical_key (some "V") true s).0)

-- If the chord has fired, V is still held and Ctrl or Alt has been let go, then for an edge-aware, engaged source
-- with room in the channel a further repeat of V is sent as a key press, and the release that follows
-- is swallowed: the receiver is left with V held down.
pub released_chord_sticks :
    {fl : Float} (s : Source fl) (e : Edge)
    → s.edge ≡ some e
    → s.engaged ≡ true
    → s.hotkey_v_down ≡ true
    → (s.ctrl_held ≡ false) ⊎ (s.alt_held ≡ false)
    → length s.events < capacity
    → let t = (physical_key (some "V") true s).0 in
      (t.events ≡ s.events ++ (key "V" true ∷ []))
      × ((physical_key (some "V") false t).0.events ≡ t.events)
      × ((physical_key (some "V") false t).1 ≡ true)
unfolding physical_key is_control is_alt is_v send forward_and_suppress send_event
released_chord_sticks s e he en hv rel room = ground arith
