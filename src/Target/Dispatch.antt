-- ===== src/Target/Dispatch.antt =====
-- cmd/target/main.go: `dispatch`, from a message to one call of the injector or of the cursor warp.
use ea_share.Base.{ℕ, ◌+◌, ℤ, Bool}
use ea_share.Float.{Float}
use ea_share.Protocol.{Message, MsgType, Button, Edge, opposite}
use ea_share.Keys.{Name}
use ea_share.Controller.EdgeMath.{entry_position}

-- A call of `inject.Injector`, or of `warpCursor`.
pub data Injection : Type 0 where
  key : Name → Bool → Injection
  mouse_move : ℤ → ℤ → Injection
  mouse_button : Button → Bool → Injection
  mouse_wheel : ℤ → Injection
  warp_cursor : ℤ → ℤ → Injection

-- The counters of the flag `-verbose`.
pub record Counts : Type 0 where
  pub keys : ℕ
  pub moves : ℕ
  pub buttons : ℕ
  pub wheels : ℕ

-- What `dispatch` does: one call, nothing (a ping), or an error that is logged.
pub data Dispatched : Type 0 where
  call : Injection → Dispatched
  nothing : Dispatched
  unknown_button : Button → Dispatched
  unknown_type : MsgType → Dispatched

unfoldable pub dispatch_button : Button → Bool → Dispatched
dispatch_button Button.left down = call (mouse_button Button.left down)
dispatch_button Button.right down = call (mouse_button Button.right down)
dispatch_button Button.middle down = call (mouse_button Button.middle down)
dispatch_button (Button.other s) down = unknown_button (Button.other s)

module _ (fl : Float) (own_w own_h : ℤ) where
  -- `MsgEngage`: the entry position on this machine's own screen.
  unfoldable pub engage : Edge → fl.F → Injection
  engage edge rel_pos =
      let (x, y) = entry_position fl (opposite edge) rel_pos own_w own_h in warp_cursor x y

  unfoldable pub dispatch_type : MsgType → Message fl → Counts → Counts × Dispatched
  unfolding dispatch_button engage
  dispatch_type MsgType.key m n = (record n { keys = n.keys + 1 }, call (key m.key m.down))
  dispatch_type MsgType.mouse_move m n =
      (record n { moves = n.moves + 1 }, call (mouse_move m.dx m.dy))
  dispatch_type MsgType.mouse_button m n =
      (record n { buttons = n.buttons + 1 }, dispatch_button m.button m.down)
  dispatch_type MsgType.mouse_wheel m n =
      (record n { wheels = n.wheels + 1 }, call (mouse_wheel m.amount))
  dispatch_type MsgType.engage m n = (n, call (engage m.edge m.rel_pos))
  dispatch_type MsgType.ping m n = (n, nothing)
  dispatch_type t m n = (n, unknown_type t)

  unfoldable pub dispatch : Message fl → Counts → Counts × Dispatched
  unfolding dispatch_type
  dispatch m n = dispatch_type m.type m n
