-- ===== src/Tray/Binaries/Suffixed.antt =====
-- cmd/tray/process.go: a tray built under a suffix starts the binaries of the same suffix.
use ea_share.Base.{
  bytes_eq_refl, ◌-◌, ◌≡◌, refl, sym, ◌∙◌, ap, Bool, true, some, [], ◌∷◌, ◌++◌, Bytes, length,
  Bool-cases, inl, inr, length-append, take-append, drop-append, arith,
}
use ea_share.Tray.Binaries.{
  ext, trim_suffix, trim_prefix, dot_exe, ea_share_tray, sibling_binary_name, bin_path,
  process_path,
}

trim_suffix-append : (xs suffix : Bytes) → trim_suffix (xs ++ suffix) suffix ≡ xs
unfolding trim_suffix
trim_suffix-append xs suffix =
    let n : length (xs ++ suffix) - length suffix ≡ length xs =
      omega (arith, length-append xs suffix) in
    rw (n, drop-append xs suffix, bytes_eq_refl suffix) (take-append xs suffix)

trim_prefix-append : (prefix xs : Bytes) → trim_prefix (prefix ++ xs) prefix ≡ xs
unfolding trim_prefix
trim_prefix-append prefix xs =
    rw (take-append prefix xs, bytes_eq_refl prefix) (drop-append prefix xs)

ext-dot_exe : (xs : Bytes) → ext (xs ++ dot_exe) ≡ dot_exe
unfolding ext
ext-dot_exe [] = refl
ext-dot_exe (x ∷ xs) = rw (ext-dot_exe xs) refl

-- Whatever the suffix holds, dots included.
pub sibling_binary_name-suffixed :
    (exe : Bytes) (file_base : Bytes → Bytes) (suffix base : Bytes)
    → file_base exe ≡ ea_share_tray ++ suffix ++ dot_exe
    → sibling_binary_name (some exe) file_base base ≡ base ++ suffix ++ dot_exe
unfolding sibling_binary_name
sibling_binary_name-suffixed exe file_base suffix base e =
    let stem : trim_suffix (file_base exe) (ext (file_base exe)) ≡ ea_share_tray ++ suffix =
      rw (e, ext-dot_exe (ea_share_tray ++ suffix))
        (trim_suffix-append (ea_share_tray ++ suffix) dot_exe) in
    rw (stem, trim_prefix-append ea_share_tray suffix) refl

base_cancel : (base s t : Bytes) → base ++ s ++ dot_exe ≡ base ++ t ++ dot_exe → s ≡ t
base_cancel base s t e =
    let stem : (u : Bytes) → trim_prefix (trim_suffix (base ++ u ++ dot_exe) dot_exe) base ≡ u =
      λ u. rw (trim_suffix-append (base ++ u) dot_exe) (trim_prefix-append base u) in
    sym (stem s) ∙ ap (λ u. trim_prefix (trim_suffix u dot_exe) base) e ∙ stem t

-- A tray of another suffix starts other binaries.
pub sibling_binary_name-apart :
    (exe exe' : Bytes) (file_base : Bytes → Bytes) (s t base : Bytes)
    → file_base exe ≡ ea_share_tray ++ s ++ dot_exe
    → file_base exe' ≡ ea_share_tray ++ t ++ dot_exe
    → sibling_binary_name (some exe) file_base base ≡ sibling_binary_name (some exe') file_base base
    → s ≡ t
sibling_binary_name-apart exe exe' file_base s t base e e' h = base_cancel base s t (
    sym (sibling_binary_name-suffixed exe file_base s base e)
    ∙ h
    ∙ sibling_binary_name-suffixed exe' file_base t base e')

-- The path that is started is the one beside the tray, and is there.
pub process_path-found :
    (exe : Bytes) (dir : Bytes → Bytes) (join : Bytes → Bytes → Bytes) (found : Bytes → Bool)
    (name path : Bytes)
    → process_path (some exe) dir join found name ≡ some path
    → (path ≡ join (dir exe) name) × (found path ≡ true)
unfolding process_path bin_path
process_path-found exe dir join found name path e =
    elim (Bool-cases (found (join (dir exe) name))) [
      | inl there ↦ ground (arith, e, there)
      | inr gone ↦ ground (arith, e, gone)
    ]
