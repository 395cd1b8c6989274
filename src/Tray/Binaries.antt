-- ===== src/Tray/Binaries.antt =====
-- cmd/tray/process.go: which binaries the tray starts. A name is its bytes; `os.Executable` and `filepath.Base`,
-- `Dir` and `Join` are arguments.
pub mod Suffixed
use ea_share.Base.{
  bytes_eq, ℕ, ◌-◌, ◌==◌, Bool, true, false, ◌&&◌, Option, none, some, [], ◌∷◌, ◌++◌, Bytes, length,
  take, drop, if◌then◌else◌,
}

-- The part of a file's name from its last dot on, as `filepath.Ext` gives it.
pub ext : Bytes → Bytes
ext [] = []
ext (c ∷ cs) = elim (ext cs) [ [] ↦ if c == 46 then c ∷ cs else [] | d ∷ ds ↦ d ∷ ds ]

-- `strings.TrimSuffix` and `strings.TrimPrefix`.
pub trim_suffix : Bytes → Bytes → Bytes
trim_suffix s suffix =
    let n = length s - length suffix in if bytes_eq (drop n s) suffix then take n s else s

pub trim_prefix : Bytes → Bytes → Bytes
trim_prefix s prefix = let n = length prefix in if bytes_eq (take n s) prefix then drop n s else s

-- ".exe" and "ea-share-tray".
abbrev pub dot_exe : Bytes
dot_exe = 46 ∷ 101 ∷ 120 ∷ 101 ∷ []

abbrev pub ea_share_tray : Bytes
ea_share_tray = 101 ∷ 97 ∷ 45 ∷ 115 ∷ 104 ∷ 97 ∷ 114 ∷ 101 ∷ 45 ∷ 116 ∷ 114 ∷ 97 ∷ 121 ∷ []

pub sibling_binary_name : Option Bytes → (Bytes → Bytes) → Bytes → Bytes
sibling_binary_name none file_base base = base ++ dot_exe
sibling_binary_name (some exe) file_base base =
    let name = file_base exe in
    let tray_name = trim_suffix name (ext name) in
    base ++ trim_prefix tray_name ea_share_tray ++ dot_exe

-- `binPath`: nothing where the executable of the tray itself is not known.
pub bin_path : Option Bytes → (Bytes → Bytes) → (Bytes → Bytes → Bytes) → Bytes → Option Bytes
bin_path none dir join name = none
bin_path (some exe) dir join name = some (join (dir exe) name)

-- What `startProcess` comes to before it makes the command: `found` tells whether `os.Stat` succeeds.
pub process_path :
    Option Bytes → (Bytes → Bytes) → (Bytes → Bytes → Bytes) → (Bytes → Bool) → Bytes → Option Bytes
process_path exe dir join found name = elim (bin_path exe dir join name) [
  | none ↦ none
  | some path ↦ if found path then some path else none
]
