-- ===== src/EdgeLink.antt =====
-- The source of internal/capture/capture_windows.go and the loop of cmd/controller/edge_windows.go at
-- work together: the hooks run on a thread of their own and fill the channel that the loop empties.
pub mod Hooks
pub mod Sync
use ea_share.Base.{ℕ, ◌<◌, ◌≡◌, Bool, true, false, List, [], ◌∷◌, length, drop, ℤ}
use ea_share.Float.{Float}
use ea_share.Screen.{Point}
use ea_share.Protocol.{Json}
use ea_share.Mousesync.{Hmac}
use ea_share.Capture.{Event, capacity}
use ea_share.Capture.Windows.{
  Source, keyboard_proc, mouse_proc, RawInput, handle_raw_input, release,
}
use ea_share.Controller.EdgeLoop.{Session, Loop, Outcome, running, Action, disengage, paste, handle}

pub record World (fl : Float) : Type 0 where
  pub source : Source fl
  pub loop : Loop

module _ {fl : Float} where
  -- What a round's actions do to the source: each `disengage` is a call of `src.Disengage`.
  abbrev pub perform : List Action → Source fl → Source fl
  perform [] s = s
  perform (disengage x y ∷ rest) s = perform rest (release s)
  perform (paste engaged ∷ rest) s = perform rest s

  -- The source after a round that took the loop from `before` to `after`.
  unfoldable pub settle : Loop → Loop → Source fl → Source fl
  settle before after s = perform (drop (length before.actions) after.actions) s

-- One step: a hook call or raw input, while the channel has room, or a round of the loop on the event at
-- the front of the channel. Any order of these steps is a run.
pub data Step (fl : Float) (json : Json fl) (mac : Hmac) (c : Session)
    : World fl → World fl → Type 0 where
  on_key :
      {w : World fl} (n_code : ℤ) (w_param vk_code flags : ℕ)
      → length w.source.events < capacity
      → Step fl json mac c w
          (record w { source = (keyboard_proc n_code w_param vk_code flags w.source).0 })
  on_mouse :
      {w : World fl} (n_code : ℤ) (w_param : ℕ) (pt : Point) (mouse_data flags : ℕ)
      → length w.source.events < capacity
      → Step fl json mac c w
          (record w { source = (mouse_proc n_code w_param pt mouse_data flags w.source).0 })
  on_raw_input :
      {w : World fl} (r : RawInput)
      → length w.source.events < capacity
      → Step fl json mac c w (record w { source = handle_raw_input r w.source })
  on_event :
      {w : World fl} {e : Event fl} {es : List (Event fl)} {l : Loop}
      → w.source.events ≡ e ∷ es
      → handle fl json mac c e w.loop ≡ running l
      → Step fl json mac c w
          (record { source = settle w.loop l (record w.source { events = es }); loop = l })

pub data Reach (fl : Float) (json : Json fl) (mac : Hmac) (c : Session) (start : World fl)
    : World fl → Type 0 where
  here : Reach fl json mac c start start
  next :
      {v w : World fl}
      → Reach fl json mac c start v
      → Step fl json mac c v w
      → Reach fl json mac c start w

-- The loop left to itself: rounds only, no hook is called meanwhile.
pub data Rounds (fl : Float) (json : Json fl) (mac : Hmac) (c : Session) (start : World fl)
    : World fl → Type 0 where
  idle : Rounds fl json mac c start start
  round :
      {w : World fl} {e : Event fl} {es : List (Event fl)} {l : Loop}
      → Rounds fl json mac c start w
      → w.source.events ≡ e ∷ es
      → handle fl json mac c e w.loop ≡ running l
      → Rounds fl json mac c start
          (record { source = settle w.loop l (record w.source { events = es }); loop = l })
