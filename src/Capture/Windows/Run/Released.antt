-- ===== src/Capture/Windows/Run/Released.antt =====
-- internal/capture/capture_windows.go: what the capturing thread gives back when it ends.
use ea_share.Base.{
  ℕ, suc, ◌≡◌, ◌≢◌, refl, Bool, true, false, ◌&&◌, Option, none, some, List, [], ◌∷◌, ◌++◌, ◌==◌,
  if◌then◌else◌, arith, Bool-cases, inl, inr,
}
use ea_share.Float.{Float}
use ea_share.Capture.Windows.{Source, RawInput}
use ea_share.Capture.Windows.Run.{
  Resource, class, window, keyboard_hook, mouse_hook, Call, acquire, give_back, watch_mouse, fail,
  ready, close, Answers, Pumped, pressed, pointed, got, Thread, create_raw_input_window, unregister,
  pump, quits, pump_hooked, hook, run_thread, post_quit, wnd_proc,
}

abbrev number : Resource → ℕ
number class = 0
number window = 1
number keyboard_hook = 2
number mouse_hook = 3

-- What is held after the calls, the latest first; `none` where something is given back that is not the latest.
abbrev pub held : List Call → List Resource → Option (List Resource)
held [] rs = some rs
held (acquire r ∷ cs) rs = held cs (r ∷ rs)
held (give_back r ∷ cs) [] = none
held (give_back r ∷ cs) (h ∷ rs) = elim (number r == number h) [ true ↦ held cs rs | false ↦ none ]
held (watch_mouse ∷ cs) rs = held cs rs
held (fail ∷ cs) rs = held cs rs
held (ready ∷ cs) rs = held cs rs
held (close ∷ cs) rs = held cs rs

-- How often `Start` is answered.
abbrev pub answers : List Call → ℕ
answers [] = 0
answers (fail ∷ cs) = suc (answers cs)
answers (ready ∷ cs) = suc (answers cs)
answers (acquire r ∷ cs) = answers cs
answers (give_back r ∷ cs) = answers cs
answers (watch_mouse ∷ cs) = answers cs
answers (close ∷ cs) = answers cs

abbrev pub closes : List Call → ℕ
closes [] = 0
closes (close ∷ cs) = suc (closes cs)
closes (fail ∷ cs) = closes cs
closes (ready ∷ cs) = closes cs
closes (acquire r ∷ cs) = closes cs
closes (give_back r ∷ cs) = closes cs
closes (watch_mouse ∷ cs) = closes cs

abbrev pub all_given : Answers → Bool
all_given a =
    a.class_name && a.register_class && a.create_window && a.register_raw_input && a.hook_keyboard
    && a.hook_mouse

pump_stopped :
    {fl : Float} (es : List Pumped) (raw : RawInput) (thread_id : ℕ) (s : Source fl)
    → thread_id ≢ 0
    → (pump (es ++ post_quit thread_id raw) s).1 ≡ true
unfolding pump post_quit quits
pump_stopped [] raw tid s h = ground arith
pump_stopped (pressed n w v f ∷ es) raw tid s h = pump_stopped es raw tid _ h
pump_stopped (pointed n w p d f ∷ es) raw tid s h = pump_stopped es raw tid _ h
pump_stopped (got ret m r ∷ es) raw tid s h = elim (Bool-cases (quits ret)) [
  | inl e ↦ rw (e, pump) refl
  | inr e ↦ rw (e, pump) (pump_stopped es raw tid (wnd_proc m r s) h)
]

-- The state of a thread, by what it holds.
abbrev IsClean : {fl : Float} → Answers → Thread fl → Type 0
IsClean a t =
    (t.ended ≡ true)
    × (held t.calls [] ≡ some [])
    × (answers t.calls ≡ 1)
    × (closes t.calls ≡ (if all_given a then 1 else 0))

run_thread-IsClean :
    {fl : Float} (a : Answers) (es : List Pumped) (s : Source fl)
    → (pump es s).1 ≡ true
    → IsClean a (run_thread a es s)
unfolding run_thread hook create_raw_input_window pump_hooked unregister
run_thread-IsClean a es s h =
    (ground (arith, h), ground (arith, h), ground (arith, h), ground (arith, h))

-- A thread that is stopped while it runs, whichever calls of the system succeed and whatever hooks and messages it
-- has met, ends; `Start` was answered once; each hook, the window and its class were given back once, the latest
-- first; and the channel of events is closed once if every call succeeded, and not at all otherwise.
pub run_stopped :
    {fl : Float} (a : Answers) (es : List Pumped) (raw : RawInput) (thread_id : ℕ) (s : Source fl)
    → thread_id ≢ 0
    → let t = run_thread a (es ++ post_quit thread_id raw) s in
      (t.ended ≡ true)
      × (held t.calls [] ≡ some [])
      × (answers t.calls ≡ 1)
      × (closes t.calls ≡ (if all_given a then 1 else 0))
run_stopped a es raw tid s h =
    run_thread-IsClean a (es ++ post_quit tid raw) s (pump_stopped es raw tid s h)
