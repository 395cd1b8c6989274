-- ===== src/Examples/Inputs.antt =====
-- The choice of the input devices at a concrete file.
use Prim.Native.String.{[] as empty, ◌∷◌ as cons, ◌++◌ as text_append}
use Prim.Native.Char.{code}
use text.Mathlib.TextLemmas.{cons-append, nil-append}
use ea_share.Base.{
  ◌≡◌, refl, inl, String, Bool, true, false, ◌&&◌, ◌||◌, ◌==◌, some, [], ◌∷◌, arith,
}
use ea_share.Capture.Linux.Devices.{Patterns, ContainsLaws, start_devices}
use ea_share.Inject.Feedback.{file_of, start_devices_ignores_injected}

unfoldable pub starts : String → String → Bool
starts s empty = true
starts empty (cons d m) = false
starts (cons c s) (cons d m) = code c == code d && starts s m

unfoldable pub contains : String → String → Bool
contains empty m = starts empty m
contains (cons c s) m = starts (cons c s) m || contains s m

starts-itself : (m : String) → starts m m ≡ true
unfolding starts
starts-itself empty = refl
starts-itself (cons c m) = ground (arith, starts-itself m)

starts-append : (s t m : String) → starts s m ≡ true → starts (text_append s t) m ≡ true
unfolding starts
starts-append s t empty h = refl
starts-append empty t (cons d m) h = cc
starts-append (cons c s) t (cons d m) h =
    rw (cons-append c s t) (ground (arith, starts-append s t m))

contains-empty : (t : String) → contains t empty ≡ true
unfolding contains starts
contains-empty empty = refl
contains-empty (cons c t) = refl

contains-itself : (m : String) → contains m m ≡ true
unfolding contains
contains-itself empty = starts-itself empty
contains-itself (cons c m) = ground (arith, starts-itself (cons c m))

contains-extended : (s t m : String) → contains s m ≡ true → contains (text_append s t) m ≡ true
unfolding contains starts
contains-extended empty t empty h = contains-empty (text_append empty t)
contains-extended empty t (cons d m) h = cc
contains-extended (cons c s) t m h =
    let front = rw (cons-append c s t) at (starts-append (cons c s) t m) in
    rw (cons-append c s t) (ground (arith, front, contains-extended s t m))

contains-preceded : (s t m : String) → contains t m ≡ true → contains (text_append s t) m ≡ true
unfolding contains
contains-preceded empty t m h = rw (nil-append t) h
contains-preceded (cons c s) t m h =
    rw (cons-append c s t) (ground (arith, contains-preceded s t m h))

-- A block's one line names its handlers; node names stand for themselves.
abbrev patterns : Patterns
patterns = record {
  contains = contains;
  handlers_of = λ block. some block;
  event_node = λ handlers. handlers;
  in_dev_input = λ node. text_append "/dev/input/" node;
}

patterns_laws : ContainsLaws patterns
patterns_laws = record {
  itself = contains-itself;
  extended = contains-extended;
  preceded = contains-preceded;
}

start_devices_ignores_injected_example :
    start_devices patterns
      (λ path. true)
      (some (file_of (("mouse0" ∷ []) ∷ ("N: kbs-virtual-input-kbd" ∷ "H: kbd" ∷ []) ∷ []), true))
    ≡ start_devices patterns (λ path. true) (some (file_of (("mouse0" ∷ []) ∷ []), true))
start_devices_ignores_injected_example =
    start_devices_ignores_injected patterns patterns_laws (λ path. true) (("mouse0" ∷ []) ∷ []) []
      [] ("H: kbd" ∷ []) "N: " "kbs-virtual-input-kbd" "" (inl refl) ((refl, tt), tt)
      (refl, (refl, tt))
