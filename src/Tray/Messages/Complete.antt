-- ===== src/Tray/Messages/Complete.antt =====
-- cmd/tray/i18n.go: the two languages have the same keys, and their texts take the same arguments.
use Prim.Native.String.{[] as empty, ◌∷◌ as cons}
use Prim.Native.Char.{code}
use text.Mathlib.Text.{◌==◌ as str_eq}
use ea_share.Base.{
  eq_iff, ◌≡◌, refl, sym, ◌⊎◌, inl, inr, String, Bool, Bool-cases, true, false, ◌&&◌, none, some,
  List, [], ◌∷◌, ◌==◌, ℕ, arith, if◌then◌else◌,
}
use ea_share.Tray.Messages.{english, portuguese, text_lookup, messages, template}

-- The verbs of a format, in order: what follows each percent sign.
unfoldable pub verbs : String → List ℕ
verbs empty = []
verbs (cons c empty) = []
verbs (cons c (cons d s)) =
    let after = verbs s in
    let rest = verbs (cons d s) in if code c == 37 then code d ∷ after else rest

same_verbs : List ℕ → List ℕ → Bool
same_verbs [] [] = true
same_verbs (m ∷ ms) (n ∷ ns) = m == n && same_verbs ms ns
same_verbs _ _ = false

same_verbs-eq : (ms ns : List ℕ) → same_verbs ms ns ≡ true → ms ≡ ns
unfolding same_verbs
same_verbs-eq [] [] h = refl
same_verbs-eq [] (n ∷ ns) h = cc
same_verbs-eq (m ∷ ms) [] h = cc
same_verbs-eq (m ∷ ms) (n ∷ ns) h = ground (arith, same_verbs-eq ms ns)

-- Two tables with the same keys in the same order, and texts with the same verbs.
aligned : List (String × String) → List (String × String) → Bool
aligned [] [] = true
aligned ((j, t) ∷ m) ((k, u) ∷ n) = str_eq j k && same_verbs (verbs t) (verbs u) && aligned m n
aligned _ _ = false

-- Both tables lack a key, or both have it, with texts of the same verbs.
abbrev pub Agree : String → List (String × String) → List (String × String) → Type 0
Agree k m n =
    ((text_lookup k m ≡ none) × (text_lookup k n ≡ none))
    ⊎ ((t u : String) × (text_lookup k m ≡ some t)
        × (text_lookup k n ≡ some u)
        × (verbs t ≡ verbs u))

aligned-Agree : (k : String) (m n : List (String × String)) → aligned m n ≡ true → Agree k m n
unfolding aligned text_lookup
aligned-Agree k [] [] h = inl (refl, refl)
aligned-Agree k [] (x ∷ n) h = absurd (ground arith)
aligned-Agree k (x ∷ m) [] h = absurd (ground arith)
aligned-Agree k ((i, t) ∷ m) ((j, u) ∷ n) h =
    let same : str_eq i j ≡ true = ground arith in
    let vs : same_verbs (verbs t) (verbs u) ≡ true = ground arith in
    let rest : aligned m n ≡ true = ground arith in
    let e = (eq_iff i j).0 same in
    elim (Bool-cases (str_eq i k)) [
      | inl here ↦
          let here' : str_eq j k ≡ true = rw (sym e) here in
          inr (t, u, ground arith, ground arith, same_verbs-eq (verbs t) (verbs u) vs)
      | inr there ↦
          let there' : str_eq j k ≡ false = rw (sym e) there in
          let at : text_lookup k ((i, t) ∷ m) ≡ text_lookup k m = ground arith in
          let at' : text_lookup k ((j, u) ∷ n) ≡ text_lookup k n = ground arith in
          rw (at, at') (aligned-Agree k m n rest)
    ]

tables_aligned : aligned english portuguese ≡ true
unfolding aligned verbs same_verbs
tables_aligned = refl

template_found : (l k t : String) → text_lookup k (messages l) ≡ some t → template l k ≡ t
unfolding template
template_found l k t h = rw (template, h) refl

template_missing :
    (l k : String)
    → text_lookup k (messages l) ≡ none
    → text_lookup k (messages "en") ≡ none
    → template l k ≡ ""
unfolding template
template_missing l k h en = rw (template, h) (rw en refl)

-- Every key has a text in both languages, with the same verbs in the same order, which is the one that is
-- shown, or in neither, and then nothing is shown.
pub template_complete :
    (k : String)
    → ((template "en" k ≡ "") × (template "pt" k ≡ ""))
      ⊎ ((text_lookup k (messages "en") ≡ some (template "en" k))
          × (text_lookup k (messages "pt") ≡ some (template "pt" k))
          × (verbs (template "en" k) ≡ verbs (template "pt" k)))
unfolding messages
template_complete k = elim (aligned-Agree k english portuguese tables_aligned) [
  | inl (e, p) ↦ inl (template_missing "en" k e e, template_missing "pt" k p e)
  | inr (t, u, e, p, v) ↦
      let en = template_found "en" k t e in
      let pt = template_found "pt" k u p in inr (rw en e, rw pt p, rw (en, pt) v)
]
