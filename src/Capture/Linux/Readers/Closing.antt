-- ===== src/Capture/Linux/Readers/Closing.antt =====
-- internal/capture/capture_linux.go: the channel is closed after the last loop, and only then.
use mathlib.Core.Path.{subst}
use ea_share.Base.{String, ◌≡◌, refl, ◌⊎◌, inl, inr, true, false, Bool-cases, List, [], ◌∷◌, ◌++◌}
use ea_share.Float.{Float}
use ea_share.Capture.Linux.Readers.{
  ReadLoop, LinuxSource, start_loops, round, Step, look, see_stop, read, read_failed, all_done,
  stop, received, Reach, here, next,
}

not_empty : (before after : List ReadLoop) (l : ReadLoop) → [] ≡ before ++ (l ∷ after) → ⊥
not_empty [] after l e = cc
not_empty (b ∷ before) after l e = cc

module _ {fl : Float} where
  -- No loop came to an event after the channel was closed, and none is left once it is.
  abbrev pub IsOrderly : LinuxSource fl → Type 0
  IsOrderly s = (s.read_after_close ≡ false) × ((s.closed ≡ false) ⊎ (s.loops ≡ []))

  -- A step of a loop leaves the channel open, and there is no such step once no loop is left.
  open_still :
      (s : LinuxSource fl) (before after : List ReadLoop) (l : ReadLoop)
      → s.loops ≡ before ++ (l ∷ after)
      → (s.closed ≡ false) ⊎ (s.loops ≡ [])
      → s.closed ≡ false
  open_still s before after l e (inl o) = o
  open_still s before after l e (inr n) = absurd (not_empty before after l (rw (n) at e))

  Step-IsOrderly : {s t : LinuxSource fl} → Step s t → IsOrderly s → IsOrderly t
  unfolding round
  Step-IsOrderly (look {s} b a l e r g) (c, o) = (c, inl (open_still s b a l e o))
  Step-IsOrderly (see_stop {s} b a l e r g) (c, o) = (c, inl (open_still s b a l e o))
  Step-IsOrderly (read {s} b a l buf e r) (c, o) =
      let k = open_still s b a l e o in (rw (k) c, inl k)
  Step-IsOrderly (read_failed {s} b a l e r) (c, o) = (c, inl (open_still s b a l e o))
  Step-IsOrderly (all_done e o) (c, k) = (c, inr e)
  Step-IsOrderly (stop g) k = k
  Step-IsOrderly (received e es h) k = k

  Reach-IsOrderly : {s t : LinuxSource fl} → IsOrderly s → Reach s t → IsOrderly t
  Reach-IsOrderly k here = k
  Reach-IsOrderly k (next r st) = Step-IsOrderly st (Reach-IsOrderly k r)

  -- Once it is stopped, every loop returns, and then the channel is closed.
  drained :
      {first : LinuxSource fl} (s : LinuxSource fl) (ls : List ReadLoop)
      → s.loops ≡ ls
      → s.stopped ≡ true
      → s.closed ≡ false
      → Reach first s
      → Reach first (record s { loops = []; closed = true })
  drained {first} s [] e g o r =
      subst (λ l. Reach first (record s { loops = l; closed = true })) e (next r (all_done e o))
  drained s (l ∷ ls) e g o r = elim (Bool-cases l.reading) [
    | inl h ↦ drained (record s { loops = ls }) ls refl g o (next r (read_failed [] ls l e h))
    | inr h ↦ drained (record s { loops = ls }) ls refl g o (next r (see_stop [] ls l e h g))
  ]

  close-IsOrderly :
      {first s : LinuxSource fl}
      → IsOrderly s
      → s.stopped ≡ true
      → Reach first s
      → Reach first (record s { loops = []; closed = true })
  close-IsOrderly {first} {s} (c, inl e) g r = drained s s.loops refl g e r
  close-IsOrderly {first} {s} (c, inr e) g r = elim (Bool-cases s.closed) [
    | inl h ↦ subst (Reach first) (λ i. record s { loops = e i; closed = h i }) r
    | inr h ↦ drained s s.loops refl g h r
  ]

  -- However the loops, `Stop` and the receiver of the events take turns after `Start`, no loop comes to an event after
  -- the channel is closed, and it is closed only when no loop is left; and from every stopped state that they reach
  -- the loops can go on to return, and then the channel is closed, with every event that was in it.
  pub reached_closes :
      {s : LinuxSource fl} (opened : List String)
      → Reach (start_loops opened) s
      → s.stopped ≡ true
      → (s.read_after_close ≡ false)
        × ((s.closed ≡ false) ⊎ (s.loops ≡ []))
        × Reach (start_loops opened) (record s { loops = []; closed = true })
  unfolding start_loops
  reached_closes {s = s} opened r g =
      let (c, o) = Reach-IsOrderly (refl, inl refl) r in (c, o, close-IsOrderly (c, o) g r)
