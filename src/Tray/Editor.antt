-- ===== src/Tray/Editor.antt =====
-- cmd/tray/profile_editor_windows.go: a page of the editor, its list of profiles and the fields of the
-- selected one, and their movement into the working copy and back. The two pages have the same code, over
-- different profiles and fields: their differences are the record Form.
pub mod Forms
pub mod Edits
pub mod Saving
use ea_share.Base.{
  ℕ, zero, suc, ◌-◌, Bool, true, false, ◌&&◌, none, some, List, [], ◌∷◌, ◌++◌, if◌then◌else◌,
  length, get_elem?, ltb, ℤ, pos, negsuc, take, drop,
}

-- How fields are written into a profile, how a profile is shown, and what is shown without one.
pub record Form (P F : Type 0) : Type 0 where
  pub committed : F → P → P
  pub fields_of : P → F
  pub blank : F

-- The profiles of the working copy, the selection (-1 is none) and what the visible fields hold.
pub record Page (P F : Type 0) : Type 0 where
  pub profiles : List P
  pub selected : ℤ
  pub fields : F

module _ {P F : Type 0} (form : Form P F) where
  -- The profile at an index, changed in place.
  unfoldable pub update : ℕ → F → List P → List P
  update i f [] = []
  update zero f (p ∷ ps) = form.committed f p ∷ ps
  update (suc i) f (p ∷ ps) = p ∷ update i f ps

  -- Out of range nothing is changed.
  unfoldable pub commit_at : ℤ → F → List P → List P
  commit_at (pos i) f ps = update i f ps
  commit_at (negsuc i) f ps = ps

  unfoldable pub commit : Page P F → Page P F
  commit e = record e { profiles = commit_at e.selected e.fields e.profiles }

  unfoldable pub shown : ℤ → List P → F
  shown (pos i) ps = elim (get_elem? ps i) [ none ↦ form.blank | some p ↦ form.fields_of p ]
  shown (negsuc i) ps = form.blank

  unfoldable pub load : ℤ → Page P F → Page P F
  load i e = record e { selected = i; fields = shown i e.profiles }

  -- `OnCurrentIndexChanged`, when the list's index is `i`.
  unfoldable pub select : ℤ → Page P F → Page P F
  select i e = load i (commit e)

  -- A number of these events, each with the list's index.
  unfoldable pub raise : List ℤ → Page P F → Page P F
  raise [] e = e
  raise (i ∷ is) e = raise is (select i e)

  -- `SetModel` and `SetCurrentIndex` raise events, as the list box sees fit.
  unfoldable pub refresh : List ℤ → ℤ → Page P F → Page P F
  refresh raised i e = load i (raise raised e)

  unfoldable pub add : P → List ℤ → Page P F → Page P F
  add p raised e =
      let ps = (commit e).profiles ++ (p ∷ []) in
      refresh raised (pos (length ps - 1)) (record (commit e) { profiles = ps })

  last_index : ℕ → ℤ
  last_index zero = negsuc 0
  last_index (suc n) = pos n

  new_selection : ℕ → ℕ → ℤ
  unfolding last_index
  new_selection i n = if ltb i n then pos i else last_index n

  unfoldable pub removed : ℕ → List ℤ → Page P F → Page P F
  unfolding new_selection
  removed i raised e =
      let ps = take i e.profiles ++ drop (suc i) e.profiles in
      refresh raised (new_selection i (length ps)) (record e { profiles = ps; selected = negsuc 0 })

  -- The removal, with the list's index and the answer to the question.
  unfoldable pub remove : ℤ → Bool → List ℤ → Page P F → Page P F
  unfolding removed
  remove (negsuc i) confirmed raised e = e
  remove (pos i) confirmed raised e =
      if ltb i (length e.profiles) && confirmed then removed i raised e else e
