-- ===== src/Capture/Linux/Reports.antt =====
-- What a device's reports become on the channel.
use ea_share.Base.{
  ℕ, zero, suc, ◌≤◌, ◌≡◌, refl, inl, inr, Bool, true, false, ◌&&◌, List, [], ◌∷◌, arith, Bytes,
  length, if◌then◌else◌, ℤ, pos, eqb_ℤ, eq_of_parts, add32, All, Option-cases, Bool-cases, ltb,
  All-append,
}
use ea_share.Float.{Float}
use ea_share.Stream.{read_full, Result-cases, read_full-length}
use ea_share.Keys.Linux.{keycode_to_name}
use ea_share.Keys.Coverage.{IsInjectable, captured_names_mapped}
use ea_share.Protocol.{Button}
use ea_share.Capture.{
  Event, key, mouse_move, mouse_button, mouse_wheel, edge_crossed, hotkey_paste, send_event,
  capacity,
}
use ea_share.Capture.Linux.{
  InputEvent, Reader, send, send_known, key_event, rel_event, syn_event, read_event, read_loop,
  input_event, input_event_size,
}

-- A motion of one axis, `evRel` with `relX` (true) or `relY`.
abbrev pub motion : Bool → ℤ → InputEvent
motion true v = record { typ = 2; code = 0; value = v }
motion false v = record { typ = 2; code = 1; value = v }

abbrev pub syn : InputEvent
syn = record { typ = 0; code = 0; value = pos 0 }

-- The int32 sum of the motions of one axis, from a start.
abbrev pub travelled : Bool → ℤ → List (Bool × ℤ) → ℤ
travelled axis from [] = from
travelled true from ((true, v) ∷ ms) = travelled true (add32 from v) ms
travelled true from ((false, v) ∷ ms) = travelled true from ms
travelled false from ((true, v) ∷ ms) = travelled false from ms
travelled false from ((false, v) ∷ ms) = travelled false (add32 from v) ms

-- Whether a key event has a name that both injectors know.
abbrev pub IsKnown : {fl : Float} → Event fl → Type 0
IsKnown (key n down) = IsInjectable n
IsKnown (mouse_move x y) = Unit {0}
IsKnown (mouse_button b d) = Unit {0}
IsKnown (mouse_wheel a) = Unit {0}
IsKnown (edge_crossed r) = Unit {0}
IsKnown hotkey_paste = Unit {0}

module _ {fl : Float} where
  abbrev pub read_motions : List (Bool × ℤ) → Reader fl → Reader fl
  read_motions [] r = r
  read_motions ((axis, v) ∷ ms) r = read_motions ms (read_event (motion axis v) r)

  read_motions-travelled :
      (ms : List (Bool × ℤ)) (r : Reader fl)
      → read_motions ms r ≡ record r { dx = travelled true r.dx ms; dy = travelled false r.dy ms }
  unfolding read_event rel_event
  read_motions-travelled [] r = refl
  read_motions-travelled ((true, v) ∷ ms) r =
      read_motions-travelled ms (record r { dx = add32 r.dx v })
  read_motions-travelled ((false, v) ∷ ms) r =
      read_motions-travelled ms (record r { dy = add32 r.dy v })

  -- What the synchronisation event leaves of two sums.
  settle :
      (x y : ℤ) (es : List (Event fl))
      → read_event syn (record { events = es; dx = x; dy = y }) ≡ (
          if eqb_ℤ x (pos 0) && eqb_ℤ y (pos 0)
          then record { events = es; dx = pos 0; dy = pos 0 }
          else record { events = send_event fl (mouse_move x y) es; dx = pos 0; dy = pos 0 })
  unfolding read_event syn_event send
  settle x y es = ground (arith, eq_of_parts x (pos 0), eq_of_parts y (pos 0))

  -- A report of any number of motions becomes at most one move event: with the int32 sums of each axis,
  -- if one of them is not 0, and after it the sums start at 0 again.
  pub report_move :
      (ms : List (Bool × ℤ)) (r : Reader fl)
      → r.dx ≡ pos 0
      → r.dy ≡ pos 0
      → let x = travelled true (pos 0) ms in
        let y = travelled false (pos 0) ms in
        read_event syn (read_motions ms r) ≡ (
          if eqb_ℤ x (pos 0) && eqb_ℤ y (pos 0)
          then r
          else record r { events = send_event fl (mouse_move x y) r.events })
  unfolding read_event syn_event send
  report_move ms r hx hy =
      rw (read_motions-travelled ms r, hx, hy)
        (settle (travelled true (pos 0) ms) (travelled false (pos 0) ms) r.events)

  send-IsKnown :
      (e : Event fl) (r : Reader fl)
      → IsKnown e
      → All IsKnown r.events
      → All IsKnown (send e r).events
  unfolding send send_event
  send-IsKnown e r h hs = elim (Bool-cases (ltb (length r.events) capacity)) [
    | inl room ↦ rw room (All-append IsKnown r.events (e ∷ []) hs (h, tt))
    | inr full ↦ rw full hs
  ]

  send_known-IsKnown :
      (code : ℕ) (down : Bool) (r : Reader fl)
      → All IsKnown r.events
      → All IsKnown (send_known (keycode_to_name code) down r).events
  unfolding send_known
  send_known-IsKnown code down r hs = elim (Option-cases (keycode_to_name code)) [
    | inl e ↦ rw e hs
    | inr (n, e) ↦ rw e (send-IsKnown (key n down) r (captured_names_mapped code n (inr e)) hs)
  ]

  read_event-IsKnown :
      (e : InputEvent) (r : Reader fl) → All IsKnown r.events → All IsKnown (read_event e r).events
  unfolding read_event key_event rel_event syn_event
  read_event-IsKnown e r hs =
      let sent : (x : Event fl) → IsKnown x → All IsKnown (send x r).events =
        λ x h. send-IsKnown x r h hs in
      let down = eqb_ℤ e.value (pos 1) in
      ground (
        arith,
        sent (mouse_button Button.left down) tt,
        sent (mouse_button Button.right down) tt,
        sent (mouse_button Button.middle down) tt,
        sent (mouse_wheel e.value) tt,
        sent (mouse_move r.dx r.dy) tt,
        send_known-IsKnown e.code down r hs,
      )

  -- Whatever bytes a device delivers, every key event on the channel carries a name that the injectors
  -- of both platforms know, if this held before.
  pub read_loop-IsKnown :
      (fuel : ℕ) (f : Bytes) (r : Reader fl)
      → All IsKnown r.events
      → All IsKnown (read_loop fuel f r).events
  unfolding read_loop
  read_loop-IsKnown zero f r hs = hs
  read_loop-IsKnown (suc fuel) f r hs = elim (Result-cases (read_full input_event_size f)) [
    | inl ((buf, rest), e) ↦
        rw (e, read_loop)
          (read_loop-IsKnown fuel rest (read_event (input_event buf) r)
            (read_event-IsKnown (input_event buf) r hs))
    | inr (x, e) ↦ rw (e, read_loop) hs
  ]

  -- The fuel of the loop never decides: with the length of the input or more it runs until a read fails.
  pub read_loop_fuel :
      (m n : ℕ) (f : Bytes) (r : Reader fl)
      → length f ≤ m
      → length f ≤ n
      → read_loop m f r ≡ read_loop n f r
  unfolding read_loop
  read_loop_fuel zero zero f r hm hn = refl
  read_loop_fuel zero (suc n) f r hm hn = elim (Result-cases (read_full input_event_size f)) [
    | inl ((buf, rest), e) ↦ absurd (omega (arith, read_full-length input_event_size f e))
    | inr (x, e) ↦ rw (e, read_loop) refl
  ]
  read_loop_fuel (suc m) zero f r hm hn = elim (Result-cases (read_full input_event_size f)) [
    | inl ((buf, rest), e) ↦ absurd (omega (arith, read_full-length input_event_size f e))
    | inr (x, e) ↦ rw (e, read_loop) refl
  ]
  read_loop_fuel (suc m) (suc n) f r hm hn = elim (Result-cases (read_full input_event_size f)) [
    | inl ((buf, rest), e) ↦
        let l = read_full-length input_event_size f e in
        rw (e, read_loop)
          (read_loop_fuel m n rest (read_event (input_event buf) r) (omega (arith, l))
            (omega (arith, l)))
    | inr (x, e) ↦ rw (e, read_loop) refl
  ]
