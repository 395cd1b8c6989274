-- ===== src/Tray/Menu/Copy.antt =====
-- cmd/tray/menu.go: what "copy token" copies.
use text.Mathlib.Text.{◌==◌ as str_eq}
use ea_share.Base.{
  ℕ, ◌≡◌, refl, sym, String, Bool-cases, true, false, Option, some, none, List, [], ◌∷◌, All, Bytes,
  arith, eq_iff, inl, inr, ◌⊎◌, if◌then◌else◌,
}
use ea_share.Clipboard.{Board, Codec, present, up_to_zero, read_text, set_text}
use ea_share.Clipboard.Text.{open_clipboard_lem, read_text_works}
use ea_share.Tray.Profiles.{TargetProfile, find_target_profile}
use ea_share.Tray.Processes.{App}
use ea_share.Tray.Menu.Clicks.{token_to_copy, set_clipboard_text, copy_token}

-- The names of the targets differ.
abbrev pub AreDistinct : List TargetProfile → Type 0
AreDistinct [] = Unit
AreDistinct (tp ∷ tps) = All (λ other. str_eq other.name tp.name ≡ false) tps × AreDistinct tps

abbrev pub IsNamed : TargetProfile → Type 0
IsNamed tp = str_eq tp.name "" ≡ false

-- The first target that has a token.
unfoldable pub first_with_token : List TargetProfile → Option TargetProfile
first_with_token [] = none
first_with_token (tp ∷ tps) =
    let rest = first_with_token tps in if str_eq tp.token "" then rest else some tp

-- Profiles of other names leave the token alone.
token_to_copy-other :
    (name token : String) (tps : List TargetProfile)
    → str_eq name "" ≡ false
    → All (λ other. str_eq other.name name ≡ false) tps
    → token_to_copy name token tps ≡ token
unfolding token_to_copy
token_to_copy-other name token [] e h = refl
token_to_copy-other name token (tp ∷ tps) e (h, hs) =
    ground (arith, token_to_copy-other name token tps e hs)

token_to_copy-running :
    (name token : String) (tps : List TargetProfile) {tp : TargetProfile}
    → str_eq name "" ≡ false
    → AreDistinct tps
    → find_target_profile name tps ≡ some tp
    → token_to_copy name token tps ≡ tp.token
unfolding token_to_copy find_target_profile
token_to_copy-running name token [] e d f = cc
token_to_copy-running name token (p ∷ tps) {tp} e (d, ds) f =
    elim (Bool-cases (str_eq p.name name)) [
      | inl here ↦
          let p≡tp : p ≡ tp = ground arith in
          let stays =
            token_to_copy-other name p.token tps e (rw ((eq_iff p.name name).0 here) at d) in
          rw (sym p≡tp) (ground (arith, stays))
      | inr there ↦
          ground (arith, token_to_copy-running name token tps {tp = tp} e ds (ground arith))
    ]

-- While none runs: a token that was found stays, and the first one is found.
token_to_copy-found :
    (token : String) (tps : List TargetProfile)
    → str_eq token "" ≡ false
    → All IsNamed tps
    → token_to_copy "" token tps ≡ token
unfolding token_to_copy
token_to_copy-found token [] e h = refl
token_to_copy-found token (tp ∷ tps) e (h, hs) = ground (arith, token_to_copy-found token tps e hs)

token_to_copy-first :
    (tps : List TargetProfile) {tp : TargetProfile}
    → All IsNamed tps
    → first_with_token tps ≡ some tp
    → token_to_copy "" "" tps ≡ tp.token
unfolding token_to_copy first_with_token
token_to_copy-first [] h f = cc
token_to_copy-first (p ∷ tps) {tp} (h, hs) f = elim (Bool-cases (str_eq p.token "")) [
  | inl blank ↦
      let no_token : p.token ≡ "" = (eq_iff p.token "").0 blank in
      let taken : token_to_copy "" "" (p ∷ tps) ≡ token_to_copy "" p.token tps = ground arith in
      rw (taken, no_token) (token_to_copy-first tps {tp = tp} hs (ground arith))
  | inr filled ↦
      let p≡tp : p ≡ tp = ground arith in
      rw (sym p≡tp) (ground (arith, token_to_copy-found p.token tps filled hs))
]

-- The profile that is meant: the running target's, or else the first one with a token.
abbrev pub IsMeant : App → TargetProfile → Type 0
IsMeant a tp =
    ((str_eq a.target.name "" ≡ false)
      × (find_target_profile a.target.name a.cfg.targets ≡ some tp))
    ⊎ ((str_eq a.target.name "" ≡ true) × (first_with_token a.cfg.targets ≡ some tp))

token_to_copy-IsMeant :
    (a : App) {tp : TargetProfile}
    → AreDistinct a.cfg.targets
    → All IsNamed a.cfg.targets
    → IsMeant a tp
    → token_to_copy a.target.name "" a.cfg.targets ≡ tp.token
token_to_copy-IsMeant a d n (inl (e, f)) =
    token_to_copy-running a.target.name "" a.cfg.targets e d f
token_to_copy-IsMeant a d n (inr (e, f)) =
    rw ((eq_iff a.target.name "").0 e) (token_to_copy-first a.cfg.targets n f)

module _ (c : Codec) (bytes : String → Bytes) where
  set_clipboard_text_works :
      (token : String) (us : List ℕ) (s : Board)
      → s.busy ≡ 0
      → (s.allocates ≡ true) × (s.locks ≡ true) × (s.sets ≡ true)
      → c.utf16_from_string (bytes token) ≡ some us
      → (set_clipboard_text c bytes token s).0
        ≡ record s { busy = 0; unicode_text = some us; dib = none }
  unfolding set_clipboard_text set_text
  set_clipboard_text_works token us s free (al, l, w) to =
      rw (set_clipboard_text, to, open_clipboard_lem 1 s) (ground arith)

  -- With a free clipboard whose calls succeed, targets with different names, and a text that comes back from
  -- UTF-16: after the click the clipboard reads as the token of the running target, or of the first target that
  -- has one while none runs.
  pub copied_token :
      (a : App) (tp : TargetProfile) (us : List ℕ) (s : Board)
      → AreDistinct a.cfg.targets
      → All IsNamed a.cfg.targets
      → IsMeant a tp
      → str_eq tp.token "" ≡ false
      → s.busy ≡ 0
      → (s.allocates ≡ true) × (s.locks ≡ true) × (s.sets ≡ true)
      → c.utf16_from_string (bytes tp.token) ≡ some us
      → c.utf16_decode (up_to_zero us) ≡ bytes tp.token
      → read_text c (copy_token c bytes a s) ≡ (copy_token c bytes a s, present (bytes tp.token))
  unfolding copy_token
  copied_token a tp us s d n meant filled free (al, l, w) to from =
      let t = record s { busy = 0; unicode_text = some us; dib = none } in
      let copied : copy_token c bytes a s ≡ t =
        rw (copy_token, token_to_copy-IsMeant a d n meant, filled)
          (set_clipboard_text_works tp.token us s free (al, l, w) to) in
      rw (copied, sym from) (read_text_works c us t (omega arith, al, l, w) refl)
