-- ===== src/Capture.antt =====
-- internal/capture/capture.go: the events that a source delivers, and the channel that holds them.
pub mod Windows
pub mod Linux
use ea_share.Base.{
  ℕ, ◌+◌, ◌<◌, ◌≡◌, Bool, List, [], ◌∷◌, ◌++◌, arith, length, length-append, ltb, if◌then◌else◌, ℤ,
}
use ea_share.Float.{Float}
use ea_share.Keys.{Name}
use ea_share.Protocol.{Button}

-- `Event` with its `Kind`: of the record only the fields relevant to the kind are populated.
pub data Event (fl : Float) : Type 0 where
  key : Name → Bool → Event fl
  mouse_move : ℤ → ℤ → Event fl
  mouse_button : Button → Bool → Event fl
  mouse_wheel : ℤ → Event fl
  edge_crossed : fl.F → Event fl
  hotkey_paste : Event fl

-- The capacity of the channel that `Start` makes.
abbrev pub capacity : ℕ
capacity = 2048

-- `sendEvent`: the event is dropped rather than block the hook thread.
unfoldable pub send_event : (fl : Float) → Event fl → List (Event fl) → List (Event fl)
send_event fl e events = if ltb (length events) capacity then events ++ (e ∷ []) else events
