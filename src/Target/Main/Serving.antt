-- ===== src/Target/Main/Serving.antt =====
-- cmd/target/main.go: from a start to every state of the two accept loops.
use mathlib.Core.Path.{subst}
use ea_share.Base.{
  Option-cases, ◌≡◌, refl, ◌∙◌, sym, ◌⊎◌, inl, inr, String, true, false, Option, none, some, List,
  [], Bytes, Bool-cases, arith,
}
use ea_share.Addr.{Net, clip_addr}
use ea_share.Identity.{Crypto, load_or_generate_cert}
use ea_share.Target.Token.{start_token}
use ea_share.Target.Accept.{accepted, returned, cleared}
use ea_share.Target.Accept.Single.{IsSingle, Step-IsSingle, not_in_nil}
use ea_share.Target.Main.{
  System, Target, serving, main, with_token, with_certificate, start_listening, listening_target,
  start_clipboard_listener, listen_at, is_some, Step, main_accepted, main_returned, main_cleared,
  main_failed, clip_accepted, clip_returned, clip_cleared, clip_failed, Reach, here, next,
}

-- One connection at a time on each channel, and none on the clipboard's where it is not up.
abbrev IsServing : Option String → Target → Type 0
IsServing clip_at t =
    IsSingle t.main
    × IsSingle t.clip
    × (((t.clip_listens ≡ false) × (t.clip.handlers ≡ [])) ⊎ ((a : String) × (clip_at ≡ some a)))

Step-IsServing :
    {clip_at : Option String} {t u : Target} → Step t u → IsServing clip_at t → IsServing clip_at u
Step-IsServing (main_accepted c e) (m, k, o) = (Step-IsSingle (accepted c) m, k, o)
Step-IsServing (main_returned b a c e h) (m, k, o) = (Step-IsSingle (returned b a c h) m, k, o)
Step-IsServing (main_cleared b a c e h) (m, k, o) = (Step-IsSingle (cleared b a c h) m, k, o)
Step-IsServing main_failed s = s
Step-IsServing (clip_accepted c e l) (m, k, inl (off, empty)) =
    absurd (let both = sym off ∙ l in cc)
Step-IsServing (clip_accepted c e l) (m, k, inr up) = (m, Step-IsSingle (accepted c) k, inr up)
Step-IsServing (clip_returned b a c e h) (m, k, inl (off, empty)) =
    absurd (not_in_nil b a (c, true) (sym empty ∙ h))
Step-IsServing (clip_returned b a c e h) (m, k, inr up) =
    (m, Step-IsSingle (returned b a c h) k, inr up)
Step-IsServing (clip_cleared b a c e h) (m, k, inl (off, empty)) =
    absurd (not_in_nil b a (c, false) (sym empty ∙ h))
Step-IsServing (clip_cleared b a c e h) (m, k, inr up) =
    (m, Step-IsSingle (cleared b a c h) k, inr up)
Step-IsServing (clip_failed e) (m, k, inl (off, empty)) = (m, k, inl (refl, empty))
Step-IsServing (clip_failed e) (m, k, inr up) = (m, k, inr up)

Reach-IsServing :
    {clip_at : Option String} {t u : Target} → IsServing clip_at t → Reach t u → IsServing clip_at u
Reach-IsServing s here = s
Reach-IsServing s (next r st) = Step-IsServing st (Reach-IsServing s r)

module _ (net : Net) (crypto : Crypto) (sys : System) (listen given : String) where
  unused-IsServing :
      (token : String) (der : Bytes) (lines : List String)
      → IsServing
          (start_clipboard_listener net crypto sys listen)
          (listening_target net crypto sys listen token der lines)
  unfolding listening_target is_some
  unused-IsServing token der lines =
      elim (Option-cases (start_clipboard_listener net crypto sys listen)) [
        | inl e ↦ (inl (refl, refl), inl (refl, refl), inl (rw e refl, refl))
        | inr (a, e) ↦ (inl (refl, refl), inl (refl, refl), inr (a, e))
      ]

  listened :
      (addr : Option String) (a : String)
      → listen_at net crypto sys.tls_listens addr ≡ some a
      → (addr ≡ some a) × (sys.tls_listens a ≡ true)
  unfolding listen_at
  listened none a e = absurd (cc)
  listened (some b) a e = ground (arith, e)

  -- What a target has that a start has brought to its loop.
  abbrev IsStarted : Target → Type 0
  IsStarted t =
      (lines : List String) × (start_token given sys.random ≡ some (t.token, lines))
      × ((load_or_generate_cert crypto sys.os sys.fresh sys.files).1 ≡ some t.certificate)
      × IsServing (start_clipboard_listener net crypto sys listen) t

  start_listening-IsStarted :
      (token : String) (der : Bytes) (lines : List String) (t : Target)
      → start_token given sys.random ≡ some (token, lines)
      → (load_or_generate_cert crypto sys.os sys.fresh sys.files).1 ≡ some der
      → start_listening net crypto sys listen token der lines ≡ serving t
      → IsStarted t
  unfolding start_listening listening_target
  start_listening-IsStarted token der lines t k d e = elim (Bool-cases (sys.tls_listens listen)) [
    | inl h ↦
        let same : listening_target net crypto sys listen token der lines ≡ t =
          let up = rw h at e in cc in
        subst IsStarted same (lines, k, d, unused-IsServing token der lines)
    | inr h ↦ absurd (let down = rw h at e in cc)
  ]

  with_certificate-IsStarted :
      (token : String) (der : Option Bytes) (lines : List String) (t : Target)
      → start_token given sys.random ≡ some (token, lines)
      → (load_or_generate_cert crypto sys.os sys.fresh sys.files).1 ≡ der
      → with_certificate net crypto sys listen token lines der ≡ serving t
      → IsStarted t
  unfolding with_certificate
  with_certificate-IsStarted token none lines t k d e = absurd (cc)
  with_certificate-IsStarted token (some der) lines t k d e = elim (Bool-cases sys.injector) [
    | inl h ↦ start_listening-IsStarted token der lines t k d (ground (arith, h, e))
    | inr h ↦ absurd (let down = rw h at e in cc)
  ]

  with_token-IsStarted :
      (token : Option (String × List String)) (t : Target)
      → start_token given sys.random ≡ token
      → with_token net crypto sys listen token ≡ serving t
      → IsStarted t
  unfolding with_token
  with_token-IsStarted none t k e = absurd (cc)
  with_token-IsStarted (some (token, lines)) t k e =
      with_certificate-IsStarted token (load_or_generate_cert crypto sys.os sys.fresh sys.files).1
        lines t k refl e

  -- A target that comes to its loops has the token that it was given or has made up, and the certificate of its data
  -- directory. Whatever connections then arrive and end on its two channels, and whenever a loop fails: on each
  -- channel at most one connection has a goroutine, the active one; and the clipboard's has none at all unless its
  -- listener started, at the address one port above the main one.
  pub main-IsServing :
      (t u : Target)
      → main net crypto sys listen given ≡ serving t
      → Reach t u
      → (lines : List String) × (start_token given sys.random ≡ some (t.token, lines))
        × ((load_or_generate_cert crypto sys.os sys.fresh sys.files).1 ≡ some t.certificate)
        × IsSingle u.main
        × IsSingle u.clip
        × (((u.clip_listens ≡ false) × (u.clip.handlers ≡ []))
            ⊎ ((a : String) × (clip_addr net listen ≡ some a) × (sys.tls_listens a ≡ true)))
  unfolding main start_clipboard_listener
  main-IsServing t u e r =
      let (lines, k, d, s) = with_token-IsStarted (start_token given sys.random) t refl e in
      let (m, c, o) = Reach-IsServing s r in
      (
        lines,
        k,
        d,
        m,
        c,
        elim o [
          | inl off ↦ inl off
          | inr (a, h) ↦ let (found, ok) = listened (clip_addr net listen) a h in inr (a, found, ok)
        ],
      )
