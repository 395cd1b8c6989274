-- ===== src/Tray/Store/Reload.antt =====
-- The profiles' file from one start of the tray to the next.
use text.Mathlib.Text.{◌==◌ as str_eq}
use ea_share.Base.{
  String, ◌≡◌, refl, ap, sym, ◌∙◌, ◌⊎◌, inl, inr, true, false, Option, none, some, Bytes, arith,
}
use ea_share.Tray.Profiles.{Config}
use ea_share.Tray.Store.{
  ConfigJson, Access, Profiles, save_config, load_config, with_lang, seed, read_config, taken,
  reload_config, change_lang, set_lang, default_config,
}

-- The system grants everything, and what is marshalled is unmarshalled.
abbrev pub IsGranted : Access → Type 0
IsGranted os = (os.has_dir ≡ true) × (os.reads ≡ true) × (os.writes ≡ true)

abbrev pub IsKept : ConfigJson → Config → Type 0
IsKept json cfg =
    (bytes : Bytes) × (json.marshal cfg ≡ some bytes) × (json.unmarshal bytes ≡ some cfg)

set_lang-known : (l current : String) → (l ≡ "en") ⊎ (l ≡ "pt") → set_lang l current ≡ l
unfolding set_lang
set_lang-known l current (inl e) = rw e refl
set_lang-known l current (inr e) = rw e refl

filled : (l : String) → (l ≡ "en") ⊎ (l ≡ "pt") → str_eq l "" ≡ false
filled l (inl e) = rw e refl
filled l (inr e) = rw e refl

module _ (json : ConfigJson) (os : Access) (granted : IsGranted os) where
  save_config_writes :
      (cfg : Config) (file : Option Bytes) (bytes : Bytes)
      → json.marshal cfg ≡ some bytes
      → save_config json os cfg file ≡ (some bytes, true)
  unfolding save_config
  save_config_writes cfg file bytes m = ground (arith, granted.2)

  load_config_reads :
      (cfg : Config) (bytes : Bytes)
      → json.unmarshal bytes ≡ some cfg
      → str_eq cfg.lang "" ≡ false
      → load_config json os (some bytes) ≡ (some bytes, some cfg)
  unfolding load_config read_config with_lang
  load_config_reads cfg bytes u l = ground (arith, granted.0, granted.1)

  load_config_seeds :
      (bytes : Bytes)
      → json.marshal default_config ≡ some bytes
      → load_config json os none ≡ (some bytes, some default_config)
  unfolding load_config seed
  load_config_seeds bytes m =
      rw (save_config_writes default_config none bytes m) (ground (arith, granted.0))

  -- A change to one of the two languages is in the file: a tray that starts anew, in whichever language
  -- and with whatever profiles at hand, takes the language and all profiles over. The JSON text of the
  -- configuration reads back, and the system lets the file be read and written.
  pub reload_config-change_lang :
      (l : String) (s t : Profiles)
      → (l ≡ "en") ⊎ (l ≡ "pt")
      → IsKept json (record s.cfg { lang = l })
      → let kept = change_lang json os l s in
        reload_config json os (record t { file = kept.file }) ≡ record kept { lang = l }
  unfolding reload_config change_lang taken
  reload_config-change_lang l s t known (bytes, m, u) =
      let cfg = record s.cfg { lang = l } in
      rw
        (
          save_config_writes cfg s.file bytes m,
          load_config_reads cfg bytes u (filled l known),
          set_lang-known l t.lang known,
        )
        refl

  -- Without a file, the default profiles are written and taken, and the next start takes them again.
  pub reload_config_seeds :
      (s : Profiles)
      → s.file ≡ none
      → IsKept json default_config
      → let first = reload_config json os s in
        (first.cfg ≡ default_config) × (reload_config json os first ≡ first)
  unfolding reload_config taken
  reload_config_seeds s missing (bytes, m, u) =
      let once : reload_config json os s
          ≡ record { cfg = default_config; lang = set_lang "en" s.lang; file = some bytes } =
        rw (missing, load_config_seeds bytes m) refl in
      (
        ap (λ r. r.cfg) once,
        rw once (
            rw (load_config_reads default_config bytes u refl) (
              ap (λ l. record { cfg = default_config; lang = l; file = some bytes })
                (set_lang-known "en" (set_lang "en" s.lang) (inl refl)
                  ∙ sym (set_lang-known "en" s.lang (inl refl))))),
      )
