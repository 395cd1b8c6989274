-- ===== src/Target/Accept.antt =====
-- cmd/target/main.go and clipboard_windows.go: the two accept loops, which hand one connection at a time to
-- a goroutine of its own and close all others. Connections are numbers.
pub mod Single
use ea_share.Base.{
  ℕ, ◌==◌, Bool, true, false, Option, none, some, List, [], ◌∷◌, ◌++◌, ◌≡◌, if◌then◌else◌,
}

-- The variable `active`, the goroutines, each with whether its handler still runs, and the connections
-- that were closed.
pub record Listener : Type 0 where
  pub active : Option ℕ
  pub handlers : List (ℕ × Bool)
  pub closed : List ℕ

-- A connection that `Accept` returned.
unfoldable pub accept_conn : ℕ → Listener → Listener
accept_conn c s = elim s.active [
  | some a ↦ record s { closed = c ∷ s.closed }
  | none ↦ record s { active = some c; handlers = (c, true) ∷ s.handlers }
]

handler_done : ℕ → List (ℕ × Bool) → List (ℕ × Bool)
handler_done c [] = []
handler_done c ((d, running) ∷ hs) =
    let rest = handler_done c hs in if d == c then (d, false) ∷ hs else (d, running) ∷ rest

-- The handler returns and has closed its connection; `active` is still set.
unfoldable pub handler_returned : ℕ → Listener → Listener
unfolding handler_done
handler_returned c s = record s { handlers = handler_done c s.handlers; closed = c ∷ s.closed }

without : ℕ → List (ℕ × Bool) → List (ℕ × Bool)
without c [] = []
without c ((d, running) ∷ hs) =
    let rest = without c hs in if d == c then hs else (d, running) ∷ rest

-- The goroutine resets `active` and ends.
unfoldable pub clear_active : ℕ → Listener → Listener
unfolding without
clear_active c s = record s { active = none; handlers = without c s.handlers }

-- The loop and the goroutines, in any order.
pub data Step : Listener → Listener → Type 0 where
  accepted : {s : Listener} (c : ℕ) → Step s (accept_conn c s)
  returned :
      {s : Listener} (before after : List (ℕ × Bool)) (c : ℕ)
      → s.handlers ≡ before ++ ((c, true) ∷ after)
      → Step s (handler_returned c s)
  cleared :
      {s : Listener} (before after : List (ℕ × Bool)) (c : ℕ)
      → s.handlers ≡ before ++ ((c, false) ∷ after)
      → Step s (clear_active c s)

pub data Reach (start : Listener) : Listener → Type 0 where
  here : Reach start start
  next : {s t : Listener} → Reach start s → Step s t → Reach start t
