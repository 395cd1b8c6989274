-- ===== src/Controller/Legacy.antt =====
-- cmd/controller/main.go: `runLegacy`, which sends every captured event.
use ea_share.Base.{Option, none, some, List, [], ◌∷◌}
use ea_share.Float.{Float}
use ea_share.Stream.{Error, Writer}
use ea_share.Protocol.{Message, message, MsgType, Json, write_message}
use ea_share.Capture.{Event, key, mouse_move, mouse_button, mouse_wheel, edge_crossed, hotkey_paste}

-- What the `select` of the loop receives.
pub data Received (fl : Float) : Type 0 where
  captured : Event fl → Received fl
  tick : Received fl

-- `lost` is `log.Fatalf("connection lost")`.
pub data Sending : Type 0 where
  sending : Writer → Sending
  lost : Writer → Error → Sending

module _ (fl : Float) where
  -- `toMessage`; `none` is its `false`.
  unfoldable pub to_message : Event fl → Option (Message fl)
  to_message (key name down) = some (record (message fl MsgType.key) { key = name; down = down })
  to_message (mouse_move dx dy) = some (record (message fl MsgType.mouse_move) { dx = dx; dy = dy })
  to_message (mouse_button b down) =
      some (record (message fl MsgType.mouse_button) { button = b; down = down })
  to_message (mouse_wheel amount) =
      some (record (message fl MsgType.mouse_wheel) { amount = amount })
  to_message (edge_crossed rel_pos) = none
  to_message hotkey_paste = none

  unfoldable pub message_of : Received fl → Option (Message fl)
  message_of (captured e) = to_message e
  message_of tick = some (message fl MsgType.ping)

module _ (fl : Float) (json : Json fl) where
  sent_or_lost : Writer × Option Error → Sending
  sent_or_lost (w, none) = sending w
  sent_or_lost (w, some x) = lost w x

  -- One round of the loop.
  unfoldable pub relay : Received fl → Writer → Sending
  unfolding sent_or_lost
  relay r w = elim (message_of fl r) [
    | none ↦ sending w
    | some m ↦ sent_or_lost (write_message fl json w m)
  ]

  -- The loop over what it receives.
  unfoldable pub run_legacy : List (Received fl) → Writer → Sending
  run_legacy [] w = sending w
  run_legacy (r ∷ rs) w = elim (relay r w) [ sending w' ↦ run_legacy rs w' | lost w' x ↦ lost w' x ]
