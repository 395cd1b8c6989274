-- ===== src/Tray/Store.antt =====
-- cmd/tray/config.go and i18n.go: the file with the profiles, and the language.
pub mod Reload
use text.Mathlib.Text.{◌==◌ as str_eq}
use ea_share.Base.{
  String, Bool, true, false, ◌||◌, Option, none, some, [], ◌∷◌, Bytes, if◌then◌else◌,
}
use ea_share.Tray.Profiles.{Config}

-- `json.MarshalIndent` and `json.Unmarshal` at Config.
pub record ConfigJson : Type 0 where
  pub marshal : Config → Option Bytes
  pub unmarshal : Bytes → Option Config

-- What the system lets happen: `os.UserConfigDir`, `os.ReadFile` of a file that is there, and
-- `os.MkdirAll` with `os.WriteFile`.
pub record Access : Type 0 where
  pub has_dir : Bool
  pub reads : Bool
  pub writes : Bool

abbrev pub default_config : Config
default_config = record {
  lang = "en";
  targets = record { name = "This PC"; listen = ":7777"; token = "" } ∷ [];
  controllers =
      record {
        name = "Other PC";
        connect = "192.168.1.50:7777";
        token = "change-me";
        edge = "right";
        udp_mouse = false;
      }
      ∷ [];
}

-- `messages` has the two languages.
unfoldable pub set_lang : String → String → String
set_lang l current = if str_eq l "en" || str_eq l "pt" then l else current

unfoldable pub with_lang : Config → Config
with_lang cfg = if str_eq cfg.lang "" then record cfg { lang = "en" } else cfg

module _ (json : ConfigJson) (os : Access) where
  -- The file after the call, and whether it was written.
  unfoldable pub save_config : Config → Option Bytes → Option Bytes × Bool
  save_config cfg file = elim (json.marshal cfg) [
    | none ↦ (file, false)
    | some bytes ↦ if os.writes then (some bytes, true) else (file, false)
  ]

  seed : Option Bytes × Bool → Option Bytes × Option Config
  seed (file, true) = (file, some default_config)
  seed (file, false) = (file, none)

  read_config : Bytes → Option Config
  read_config bytes = elim (json.unmarshal bytes) [ none ↦ none | some cfg ↦ some (with_lang cfg) ]

  -- `loadConfig`: the file after it, and the configuration where there is no error.
  unfoldable pub load_config : Option Bytes → Option Bytes × Option Config
  unfolding seed read_config with_lang
  load_config none = if os.has_dir then seed (save_config default_config none) else (none, none)
  load_config (some bytes) =
      if os.has_dir
      then (if os.reads then (some bytes, read_config bytes) else (some bytes, none))
      else (some bytes, none)

-- `reloadConfig` and `app.setLang`, over the configuration, the language and the file.
pub record Profiles : Type 0 where
  pub cfg : Config
  pub lang : String
  pub file : Option Bytes

module _ (json : ConfigJson) (os : Access) where
  taken : Option Bytes × Option Config → Profiles → Profiles
  taken (file, none) s = record s { file = file }
  taken (file, some cfg) s = record { cfg = cfg; lang = set_lang cfg.lang s.lang; file = file }

  unfoldable pub reload_config : Profiles → Profiles
  unfolding taken
  reload_config s = taken (load_config json os s.file) s

  unfoldable pub change_lang : String → Profiles → Profiles
  change_lang l s =
      let cfg = record s.cfg { lang = l } in
      record { cfg = cfg; lang = set_lang l s.lang; file = (save_config json os cfg s.file).0 }
