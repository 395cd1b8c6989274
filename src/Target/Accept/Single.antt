-- ===== src/Target/Accept/Single.antt =====
-- At most one connection is served at a time.
use ea_share.Base.{
  ℕ, ◌≡◌, refl, sym, ap, ◌∙◌, ◌⊎◌, inl, inr, Bool, true, false, none, some, Option-cases, List, [],
  ◌∷◌, ◌++◌, arith,
}
use ea_share.Target.Accept.{
  Listener, accept_conn, handler_returned, handler_done, clear_active, without, Step, accepted,
  returned, cleared, Reach, here, next,
}

-- The goroutines are the one of the active connection, or none.
abbrev pub IsSingle : Listener → Type 0
IsSingle s =
    ((s.active ≡ none) × (s.handlers ≡ []))
    ⊎ ((c : ℕ) × (running : Bool) × (s.active ≡ some c) × (s.handlers ≡ (c, running) ∷ []))

-- What stands in a list of one.
only : (before after : List (ℕ × Bool)) (x y : ℕ × Bool) → x ∷ [] ≡ before ++ (y ∷ after) → x ≡ y
only [] after x y e = cc
only (b ∷ []) after x y e = cc
only (b ∷ b' ∷ before) after x y e = cc

pub not_in_nil : (before after : List (ℕ × Bool)) (y : ℕ × Bool) → [] ≡ before ++ (y ∷ after) → ⊥
not_in_nil [] after y e = cc
not_in_nil (b ∷ before) after y e = cc

-- The pair's number and flag.
only_active :
    (s : Listener) (before after : List (ℕ × Bool)) (c d : ℕ) (wanted running : Bool)
    → s.handlers ≡ (d, running) ∷ []
    → s.handlers ≡ before ++ ((c, wanted) ∷ after)
    → (d ≡ c) × (running ≡ wanted)
only_active s before after c d wanted running h e =
    let same = only before after (d, running) (c, wanted) (sym h ∙ e) in
    (ap (λ x. x.0) same, ap (λ x. x.1) same)

accept_busy :
    (c a : ℕ) (s : Listener)
    → s.active ≡ some a
    → accept_conn c s ≡ record s { closed = c ∷ s.closed }
unfolding accept_conn
accept_busy c a s e = rw (e, accept_conn) (λ i. record s { active = e i; closed = c ∷ s.closed })

pub Step-IsSingle : {s t : Listener} → Step s t → IsSingle s → IsSingle t
unfolding accept_conn handler_returned handler_done clear_active without
Step-IsSingle (accepted {s} c) (inl (a, h)) = inr (c, true, rw a refl, rw (a, h) refl)
Step-IsSingle (accepted {s} c) (inr (d, running, a, h)) =
    let kept = accept_busy c d s a in inr (d, running, rw kept a, rw kept h)
Step-IsSingle (returned {s} before after c e) (inl (a, h)) =
    absurd (not_in_nil before after (c, true) (sym h ∙ e))
Step-IsSingle (returned {s} before after c e) (inr (d, running, a, h)) =
    let (same, on) = only_active s before after c d true running h e in
    inr (c, false, a ∙ ap some same, rw (h, same) (ground arith))
Step-IsSingle (cleared {s} before after c e) (inl (a, h)) =
    absurd (not_in_nil before after (c, false) (sym h ∙ e))
Step-IsSingle (cleared {s} before after c e) (inr (d, running, a, h)) =
    let (same, on) = only_active s before after c d false running h e in
    inl (refl, rw (h, same) (ground arith))

-- Whatever connections arrive, and in whatever order handlers return and goroutines end: never more than
-- one connection has a goroutine, it is the active one, and a connection that arrives meanwhile is closed
-- at once and gets none.
pub reached-IsSingle :
    {s t : Listener}
    → s.active ≡ none
    → s.handlers ≡ []
    → Reach s t
    → IsSingle t
      × ((c : ℕ) → (t.active ≡ none) ⊎ (accept_conn c t ≡ record t { closed = c ∷ t.closed }))
reached-IsSingle {s} {t} a h r = (
  go r,
  λ c. elim (Option-cases t.active) [ inl e ↦ inl e | inr (b, e) ↦ inr (accept_busy c b t e) ],
)
  where
    go : {u : Listener} → Reach s u → IsSingle u
    go here = inl (a, h)
    go (next r st) = Step-IsSingle st (go r)
