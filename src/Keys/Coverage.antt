-- ===== src/Keys/Coverage.antt =====
-- Every name that can be captured or is declared has a code in both tables.
use ea_share.Base.{
  ℕ, ◌≡◌, refl, ◌⊎◌, Option-cases, get_elem?, zero, suc, Bool, true, false, ◌&&◌, inl, inr, none,
  some, List, [], ◌∷◌, arith,
}
use ea_share.Keys.{Name, names, name_lookup, code_lookup, code_insert}
use ea_share.Keys.Windows.{name_to_vk, vk_to_name_in, vk_to_name}
use ea_share.Keys.Linux.{name_to_keycode, keycode_to_name_in, keycode_to_name}

abbrev is_mapped : Name → List (Name × ℕ) → Bool
is_mapped n t = elim (name_lookup n t) [ none ↦ false | some c ↦ true ]

-- Every name that the map gives is a key of both tables.
all_mapped : List (ℕ × Name) → Bool
all_mapped [] = true
all_mapped ((c, n) ∷ m) = is_mapped n name_to_vk && is_mapped n name_to_keycode && all_mapped m

all_mapped-code_lookup :
    (c : ℕ) (n : Name) (m : List (ℕ × Name))
    → all_mapped m ≡ true
    → code_lookup c m ≡ some n
    → (is_mapped n name_to_vk ≡ true) × (is_mapped n name_to_keycode ≡ true)
unfolding all_mapped code_lookup
all_mapped-code_lookup c n [] h e = cc
all_mapped-code_lookup c n ((d, k) ∷ m) h e = ground (arith, all_mapped-code_lookup c n m)

is_mapped-some :
    (n : Name) (t : List (Name × ℕ)) → is_mapped n t ≡ true → (c : ℕ) × (name_lookup n t ≡ some c)
is_mapped-some n t h = elim (Option-cases (name_lookup n t)) [
  | inl e ↦ absurd (ground arith)
  | inr found ↦ found
]

-- A name with a code on both platforms.
abbrev pub IsInjectable : Name → Type 0
IsInjectable n =
    ((vk : ℕ) × (name_lookup n name_to_vk ≡ some vk))
    × ((code : ℕ) × (name_lookup n name_to_keycode ≡ some code))

injectable :
    (c : ℕ) (n : Name) (m : List (ℕ × Name))
    → all_mapped m ≡ true
    → code_lookup c m ≡ some n
    → IsInjectable n
injectable c n m h e =
    let (w, l) = all_mapped-code_lookup c n m h e in
    (is_mapped-some n name_to_vk w, is_mapped-some n name_to_keycode l)

maps_checked :
    (all_mapped (vk_to_name_in name_to_vk) ≡ true)
    × (all_mapped (keycode_to_name_in name_to_keycode) ≡ true)
unfolding all_mapped vk_to_name_in keycode_to_name_in name_lookup code_insert
maps_checked = (refl, refl)

-- A name that either platform's capture can send has a code on both platforms, so no captured key is
-- refused as unmapped by the injector of the other machine.
pub captured_names_mapped :
    (code : ℕ) (n : Name)
    → (vk_to_name code ≡ some n) ⊎ (keycode_to_name code ≡ some n)
    → IsInjectable n
unfolding vk_to_name keycode_to_name
captured_names_mapped code n (inl e) = injectable code n _ maps_checked.0 e
captured_names_mapped code n (inr e) = injectable code n _ maps_checked.1 e

all_declared : List Name → Bool
all_declared [] = true
all_declared (n ∷ ns) = is_mapped n name_to_vk && is_mapped n name_to_keycode && all_declared ns

all_declared-get_elem? :
    (i : ℕ) (n : Name) (ns : List Name)
    → all_declared ns ≡ true
    → get_elem? ns i ≡ some n
    → IsInjectable n
unfolding all_declared
all_declared-get_elem? i n [] h e = cc
all_declared-get_elem? zero n (k ∷ ns) h e =
    let w : is_mapped n name_to_vk ≡ true = ground arith in
    let l : is_mapped n name_to_keycode ≡ true = ground arith in
    (is_mapped-some n name_to_vk w, is_mapped-some n name_to_keycode l)
all_declared-get_elem? (suc i) n (k ∷ ns) h e = all_declared-get_elem? i n ns (ground arith) e

names_checked : all_declared names ≡ true
unfolding all_declared name_lookup
names_checked = refl

-- Every key name that the package declares has a code on both platforms.
pub declared_names_mapped : (i : ℕ) (n : Name) → get_elem? names i ≡ some n → IsInjectable n
declared_names_mapped i n e = all_declared-get_elem? i n names names_checked e
