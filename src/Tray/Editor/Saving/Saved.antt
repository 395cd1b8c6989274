-- ===== src/Tray/Editor/Saving/Saved.antt =====
-- What a save leaves, on disk and in the tray, and what it starts again.
use text.Mathlib.Text.{◌==◌ as str_eq}
use ea_share.Base.{
  ℤ, ◌≡◌, refl, String, true, false, none, some, List, Bytes, Bool-cases, Option-cases, inl, inr,
  ◌⊎◌,
}
use ea_share.Tray.Profiles.{Config, validate}
use ea_share.Tray.Profiles.Validation.{IsSaveable, validate-IsSaveable}
use ea_share.Tray.Store.{ConfigJson, Access, save_config}
use ea_share.Tray.Processes.{App, save_generated_target_token}
use ea_share.Tray.Editor.Forms.{TargetFields, CtrlFields}
use ea_share.Tray.Editor.Saving.{
  ProfileEditor, Edited, open_profile_editor, committed, working_cfg, stored, do_save,
}

module _ (json : ConfigJson) (os : Access) (trim_space : String → String) (e : ProfileEditor) where
  abbrev visible : Config
  visible = working_cfg (committed e)

  abbrev Saves : Type 0
  Saves =
      (bytes : Bytes) × (validate trim_space visible ≡ none)
      × (json.marshal visible ≡ some bytes)
      × ((a : App)
          → do_save json os trim_space e a
            ≡ (committed e, record a { cfg = visible; file = some bytes }, true))

  -- Whether a save goes through is up to the editor and the system; if not, it changes nothing outside.
  do_save_cases : Saves ⊎ ((a : App) → do_save json os trim_space e a ≡ (committed e, a, false))
  unfolding do_save stored save_config
  do_save_cases = elim (Option-cases (validate trim_space visible)) [
    | inr (problem, v) ↦ inr (λ a. rw (v, do_save) refl)
    | inl v ↦ elim (Option-cases (json.marshal visible)) [
      | inl m ↦ inr (λ a. rw (v, do_save, m, save_config) refl)
      | inr (bytes, m) ↦ elim (Bool-cases os.writes) [
        | inl w ↦ inl (bytes, v, m, λ a. rw (v, do_save, m, save_config) (rw w refl))
        | inr w ↦ inr (λ a. rw (v, do_save, m, save_config) (rw w refl))
      ]
    ]
  ]

  -- A save that goes through: the tray's configuration is the working copy with what the fields showed, it
  -- passes the rules of the validation, the file holds it, and the processes are left alone. One that does
  -- not leaves the tray and the file as they were.
  pub do_save-IsSaveable :
      (a : App)
      → let r = do_save json os trim_space e a in
        ((r.2 ≡ true)
          × (r.1.cfg ≡ working_cfg (committed e))
          × IsSaveable trim_space r.1.cfg
          × (json.marshal r.1.cfg ≡ r.1.file)
          × (r.1 ≡ record a { cfg = r.1.cfg; file = r.1.file }))
        ⊎ ((r.2 ≡ false) × (r.1 ≡ a))
  do_save-IsSaveable a = elim do_save_cases [
    | inl (bytes, v, m, r) ↦ inl (
      rw (r a) refl,
      rw (r a) refl,
      rw (r a) ((validate-IsSaveable trim_space visible).0 v),
      rw (r a) m,
      rw (r a) refl,
    )
    | inr r ↦ inr (rw (r a) refl, rw (r a) refl)
  ]

-- An editor was opened and edited in any way, without a save. Meanwhile the tray learned a target's generated
-- token. The save, where it goes through, ends with the same profiles and the same file as one without that
-- token: it is lost.
pub do_save_forgets_token :
    (json : ConfigJson) (os : Access) (trim_space : String → String) (tf : TargetFields)
    (cf : CtrlFields) (raised_t raised_c : List ℤ) (e : ProfileEditor) (name token : String)
    (a learned : App)
    → Edited (open_profile_editor tf cf raised_t raised_c a.cfg) e
    → learned ≡ save_generated_target_token json os name token a
    → (do_save json os trim_space e learned).2 ≡ true
    → ((do_save json os trim_space e learned).1.cfg ≡ (do_save json os trim_space e a).1.cfg)
      × ((do_save json os trim_space e learned).1.file ≡ (do_save json os trim_space e a).1.file)
do_save_forgets_token json os trim_space tf cf raised_t raised_c e name token a learned edits l h =
    elim (do_save_cases json os trim_space e) [
      | inr r ↦ let no = rw (r learned) at h in cc
      | inl (bytes, v, m, r) ↦ rw (r learned, r a) (refl, refl)
    ]
