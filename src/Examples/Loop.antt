-- ===== src/Examples/Loop.antt =====
-- The controller's loop, and both ends of the UDP channel, at concrete events.
use ea_share.Base.{
  inl, ◌+ℤ◌, ℕ, suc, ◌+◌, ◌%◌, ◌^◌, ◌<◌, ◌≡◌, ◌≤ℤ◌, ◌<ℤ◌, refl, Option, none, some, ℤ, pos, negsuc,
  arith, int_laws, Bool, true, false, ◌&&◌, List, [], ◌∷◌, ◌++◌, Bytes, add32, IsInt32, ◌*ℤ◌,
}
use ea_share.Stream.{Writer}
use ea_share.Capture.{Event, key, mouse_move, mouse_wheel, hotkey_paste}
use ea_share.Target.Udp.{UdpSession, receive}
use ea_share.Capture.Windows.{edge_reached}
use ea_share.Protocol.{Edge}
use ea_share.Controller.EdgeMath.{pushes_past}
use ea_share.Controller.EdgeMath.Geometry.{IsSize, OnScreen, IsDesktop}
use ea_share.Controller.EdgeLoop.{
  Session, Loop, UdpClient, disengage, Outcome, running, loop_of, entry_edge, handle, on_mouse_move,
  hand_back, run,
}
use ea_share.Controller.EdgeLoop.Engagement.{Visited, OffEntryEdge, run_release_after_away}
use ea_share.Controller.EdgeLoop.Position.{IsTracked, IsMoved, handle-IsTracked, hand_back_inside}
use ea_share.MouseLink.{on_mouse_move-receive}
use ea_share.Examples.Rational.{rational, rational-FloatLaws}
use ea_share.Examples.Values.{codec, tag, session, entered, client}

-- To the right, off the edge, and back out.
abbrev out_and_back : List (Event rational)
out_and_back = mouse_move (pos 10) (pos 0) ∷ mouse_move (negsuc 19) (pos 0) ∷ []

handed_back : (loop_of (run rational codec tag session out_and_back entered)).engaged ≡ false
unfolding run handle on_mouse_move ea_share.Controller.EdgeLoop.send_move
    ea_share.Controller.EdgeLoop.track ea_share.Controller.EdgeLoop.send_message
    ea_share.Protocol.write_message ea_share.Stream.write ea_share.Base.put_uint32 pushes_past
    ea_share.Protocol.opposite add32 ea_share.Base.◌+ℤ◌ ea_share.Controller.EdgeMath.has_moved_away
    ea_share.Controller.EdgeMath.clamp_i ea_share.Base.sub32 ea_share.Base.◌-ℤ◌ hand_back
handed_back = refl

run_release_after_away_example :
    (m : Loop) × Visited rational codec tag session out_and_back entered m × OffEntryEdge session m
run_release_after_away_example =
    run_release_after_away rational codec tag session out_and_back entered refl refl handed_back

abbrev local_events : List (Event rational)
local_events = mouse_move (pos 10) (pos 0) ∷ key "A" true ∷ hotkey_paste ∷ mouse_wheel (pos 1) ∷ []

abbrev idle : Loop
idle = record entered { engaged = false }

abbrev near_edge : Loop
near_edge = record entered { moved_away = true; vx = pos 10 }

leaves :
    (loop_of (on_mouse_move rational codec tag session (negsuc 19) (pos 0) near_edge)).engaged
    ≡ false
unfolding on_mouse_move pushes_past ea_share.Protocol.opposite add32 ea_share.Base.◌+ℤ◌ hand_back
leaves = refl

full_hd : IsSize (pos 1920) (pos 1080)
full_hd = (omega arith, omega arith, (omega arith, omega arith), (omega arith, omega arith))

handle-IsTracked_example :
    IsTracked rational session
      (loop_of (handle rational codec tag session (mouse_move (negsuc 19) (pos 4000)) entered))
    × IsMoved {fl = rational} session
        (mouse_move (negsuc 19) (pos 4000))
        (loop_of (handle rational codec tag session (mouse_move (negsuc 19) (pos 4000)) entered))
handle-IsTracked_example =
    handle-IsTracked rational codec tag session rational-FloatLaws full_hd
      (mouse_move (negsuc 19) (pos 4000)) entered tt (λ on. inl (ground arith))

desktop : IsDesktop session.bounds
unfolding ◌+ℤ◌
desktop = ground arith

hand_back_inside_example :
    let m = hand_back rational codec tag session (negsuc 9) (pos 4000) near_edge in
    (m.engaged ≡ false)
    × ((x : ℤ) × (y : ℤ) × (m.actions ≡ near_edge.actions ++ (disengage x y ∷ []))
        × (edge_reached rational Edge.right session.bounds (record { px = x; py = y }) ≡ none)
        × (pos 0 ≤ℤ x)
        × (x <ℤ pos 0 +ℤ pos 2560)
        × (pos 0 ≤ℤ y)
        × (y <ℤ pos 0 +ℤ pos 1440))
hand_back_inside_example =
    hand_back_inside rational codec tag session rational-FloatLaws full_hd (negsuc 9) (pos 4000)
      near_edge desktop

abbrev linked : Loop
linked = record entered { udp = some client }

abbrev listening : UdpSession
listening = record { key = some client.key; last_seq = 3 }

on_mouse_move-receive_example :
    (m : Loop) × (v : UdpClient) × (d : Bytes) × (on_mouse_move rational codec tag session
        (pos 25)
        (negsuc 9)
        linked
      ≡ running m)
    × OnScreen m.vx m.vy (pos 1920) (pos 1080)
    × (m.udp ≡ some v)
    × (v.packets ≡ client.packets ++ (d ∷ []))
    × (receive tag d listening
        ≡ (record listening { last_seq = v.seq }, record { seq = v.seq; x = m.vx; y = m.vy } ∷ []))
on_mouse_move-receive_example =
    on_mouse_move-receive rational codec tag session rational-FloatLaws full_hd (pos 25) (negsuc 9)
      linked client listening refl refl refl (omega arith) refl (omega arith)
