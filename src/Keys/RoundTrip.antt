-- ===== src/Keys/RoundTrip.antt =====
-- The reverse maps undo the tables.
use text.Mathlib.Text.{◌==◌ as str_eq}
use ea_share.Base.{
  ℕ, ◌≡◌, refl, sym, ◌∙◌, Bool, true, false, ◌&&◌, ◌||◌, ◌==◌, not, if◌then◌else◌, Bool-cases, inl,
  inr, some, List, [], ◌∷◌, arith, eq_iff,
}
use ea_share.Keys.{Name, name_lookup, code_lookup, code_insert, invert, assign}
use ea_share.Keys.Windows.{name_to_vk, vk_to_name_in, vk_to_name_extra}
use ea_share.Keys.Linux.{name_to_keycode, keycode_to_name_in, keycode_to_name_extra}

-- Whether a table has an entry.
abbrev pub entry : Name → ℕ → List (Name × ℕ) → Bool
entry n c [] = false
entry n c ((m, d) ∷ t) = (str_eq m n && d == c) || entry n c t

-- An order in which a range over a map may visit it.
abbrev pub IsOrderOf : List (Name × ℕ) → List (Name × ℕ) → Type 0
IsOrderOf order table = (n : Name) (c : ℕ) → entry n c order ≡ entry n c table

code_lookup-code_insert :
    (k j : ℕ) (v : Name) (m : List (ℕ × Name))
    → code_lookup k (code_insert j v m) ≡ (if j == k then some v else code_lookup k m)
unfolding code_lookup code_insert
code_lookup-code_insert k j v [] = refl
code_lookup-code_insert k j v ((i, w) ∷ m) = ground (arith, code_lookup-code_insert k j v m)

name_lookup-entry :
    (n : Name) (c : ℕ) (t : List (Name × ℕ)) → name_lookup n t ≡ some c → entry n c t ≡ true
unfolding name_lookup
name_lookup-entry n c [] h = cc
name_lookup-entry n c ((m, d) ∷ t) h = ground (arith, eq_iff m n, name_lookup-entry n c t)

-- No other name has the code `c`.
abbrev Only : Name → ℕ → List (Name × ℕ) → Type 0
Only n c t = (m : Name) → entry m c t ≡ true → m ≡ n

Only-tail : (n m : Name) (c d : ℕ) (t : List (Name × ℕ)) → Only n c ((m, d) ∷ t) → Only n c t
Only-tail n m c d t h k e = h k (ground arith)

invert-kept :
    (n : Name) (c : ℕ) (t : List (Name × ℕ)) (m : List (ℕ × Name))
    → Only n c t
    → code_lookup c m ≡ some n
    → code_lookup c (invert t m) ≡ some n
unfolding invert
invert-kept n c [] m only h = h
invert-kept n c ((a, d) ∷ t) m only h =
    invert-kept n c t (code_insert d a m) (Only-tail n a c d t only)
      (rw (code_lookup-code_insert c d a m) ground (arith, only a, eq_iff a a))

invert-found :
    (n : Name) (c : ℕ) (t : List (Name × ℕ)) (m : List (ℕ × Name))
    → Only n c t
    → entry n c t ≡ true
    → code_lookup c (invert t m) ≡ some n
unfolding invert
invert-found n c [] m only h = cc
invert-found n c ((a, d) ∷ t) m only h = elim (Bool-cases (entry n c t)) [
  | inl tail ↦ invert-found n c t (code_insert d a m) (Only-tail n a c d t only) tail
  | inr head ↦
      invert-kept n c t (code_insert d a m) (Only-tail n a c d t only)
        (rw (code_lookup-code_insert c d a m) (ground (arith, eq_iff a n)))
]

has_code : ℕ → List (Name × ℕ) → Bool
has_code c [] = false
has_code c ((m, d) ∷ t) = d == c || has_code c t

-- No code stands twice in a table.
unique_codes : List (Name × ℕ) → Bool
unfolding has_code
unique_codes [] = true
unique_codes ((n, c) ∷ t) = not (has_code c t) && unique_codes t

entry-has_code : (n : Name) (c : ℕ) (t : List (Name × ℕ)) → entry n c t ≡ true → has_code c t ≡ true
unfolding has_code
entry-has_code n c [] h = cc
entry-has_code n c ((m, d) ∷ t) h = ground (arith, entry-has_code n c t)

unique_codes-Only :
    (n m : Name) (c : ℕ) (t : List (Name × ℕ))
    → unique_codes t ≡ true
    → entry n c t ≡ true
    → entry m c t ≡ true
    → m ≡ n
unfolding unique_codes
unique_codes-Only n m c [] u hn hm = cc
unique_codes-Only n m c ((k, d) ∷ t) u hn hm = ground (
  arith,
  eq_iff k n,
  eq_iff k m,
  entry-has_code n c t,
  entry-has_code m c t,
  unique_codes-Only n m c t,
)

assigns : ℕ → List (ℕ × Name) → Bool
assigns c [] = false
assigns c ((d, n) ∷ rest) = d == c || assigns c rest

assign-other :
    (c : ℕ) (extra m : List (ℕ × Name))
    → assigns c extra ≡ false
    → code_lookup c (assign extra m) ≡ code_lookup c m
unfolding assigns assign
assign-other c [] m h = refl
assign-other c ((d, n) ∷ rest) m h =
    ground (arith, assign-other c rest (code_insert d n m), code_lookup-code_insert c d n m)

-- No code of the table is among the later assignments.
apart : List (Name × ℕ) → List (ℕ × Name) → Bool
unfolding assigns
apart [] extra = true
apart ((n, c) ∷ t) extra = not (assigns c extra) && apart t extra

apart-assigns :
    (n : Name) (c : ℕ) (t : List (Name × ℕ)) (extra : List (ℕ × Name))
    → apart t extra ≡ true
    → entry n c t ≡ true
    → assigns c extra ≡ false
unfolding apart
apart-assigns n c [] extra h e = cc
apart-assigns n c ((m, d) ∷ t) extra h e = ground (arith, apart-assigns n c t extra)

-- Inverting in any order, then assigning: a code of the table is mapped back to its name.
inverse_in_order :
    (table order : List (Name × ℕ)) (extra : List (ℕ × Name)) (n : Name) (c : ℕ)
    → IsOrderOf order table
    → unique_codes table ≡ true
    → apart table extra ≡ true
    → name_lookup n table ≡ some c
    → code_lookup c (assign extra (invert order [])) ≡ some n
inverse_in_order table order extra n c same u ap h =
    let here = name_lookup-entry n c table h in
    let only : Only n c order = λ m e. unique_codes-Only n m c table u here (sym (same m c) ∙ e) in
    assign-other c extra (invert order []) (apart-assigns n c table extra ap here)
    ∙ invert-found n c order [] only (same n c ∙ here)

vk_unique : (unique_codes name_to_vk ≡ true) × (apart name_to_vk vk_to_name_extra ≡ true)
unfolding unique_codes apart
vk_unique = (refl, refl)

keycode_unique :
    (unique_codes name_to_keycode ≡ true) × (apart name_to_keycode keycode_to_name_extra ≡ true)
unfolding unique_codes apart
keycode_unique = (refl, refl)

-- On Windows: in whatever order Go ranges over the table, `init` maps the virtual-key code of a name
-- back to that name; the extra codes that it assigns afterwards take no name away.
pub vk_to_name-name_to_vk :
    (order : List (Name × ℕ)) (n : Name) (vk : ℕ)
    → IsOrderOf order name_to_vk
    → name_lookup n name_to_vk ≡ some vk
    → code_lookup vk (vk_to_name_in order) ≡ some n
unfolding vk_to_name_in
vk_to_name-name_to_vk order n vk same h =
    inverse_in_order name_to_vk order vk_to_name_extra n vk same vk_unique.0 vk_unique.1 h

-- On Linux the same holds of the input-event codes.
pub keycode_to_name-name_to_keycode :
    (order : List (Name × ℕ)) (n : Name) (code : ℕ)
    → IsOrderOf order name_to_keycode
    → name_lookup n name_to_keycode ≡ some code
    → code_lookup code (keycode_to_name_in order) ≡ some n
unfolding keycode_to_name_in
keycode_to_name-name_to_keycode order n code same h =
    inverse_in_order name_to_keycode order keycode_to_name_extra n code same keycode_unique.0
      keycode_unique.1 h
