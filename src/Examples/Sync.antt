-- ===== src/Examples/Sync.antt =====
-- The hooks and the loop that empties their channel, at a crossing.
use ea_share.Base.{refl, arith, false, some, [], pos, ◌⊎◌}
use ea_share.Screen.{Point}
use ea_share.Protocol.{Edge}
use ea_share.Capture.Windows.{mouse_proc}
use ea_share.EdgeLink.{World, Reach, Rounds, here, next, on_mouse}
use ea_share.EdgeLink.Sync.{InSync, IsAgreed, IsLosing, reached-InSync, reached_agrees}
use ea_share.Examples.Rational.{rational}
use ea_share.Examples.Values.{codec, tag, session, entered}

abbrev at_rest : World rational
at_rest = record {
  source = record {
    events = [];
    edge = some Edge.right;
    bounds = record { x = pos 0; y = pos 0; w = pos 2560; h = pos 1440 };
    engaged = false;
    ctrl_held = false;
    alt_held = false;
    hotkey_v_down = false;
  };
  loop = record entered { engaged = false };
}

abbrev at_edge : Point
at_edge = record { px = pos 2559; py = pos 10 }

-- The pointer reaches the edge.
abbrev crossed : World rational
crossed = record at_rest { source = (mouse_proc (pos 0) 0x0200 at_edge 0 0 at_rest.source).0 }

crossing : Reach rational codec tag session at_rest crossed
crossing = next here (on_mouse (pos 0) 0x0200 at_edge 0 0 (omega arith))

reached-InSync_example : InSync crossed
reached-InSync_example = reached-InSync codec tag session refl refl refl crossing

reached_agrees_example :
    (u : World rational) × Rounds rational codec tag session crossed u
    × (IsAgreed codec tag session u ⊎ IsLosing codec tag session u)
reached_agrees_example = reached_agrees codec tag session refl refl refl crossing
