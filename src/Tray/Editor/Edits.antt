-- ===== src/Tray/Editor/Edits.antt =====
-- Edits are not lost, and land in their own profile.
use ea_share.Base.{
  ℕ, zero, suc, ◌≡◌, ◌≢◌, ◌<◌, refl, ap, sym, ◌∙◌, String, true, some, List, [], ◌∷◌, ◌++◌, length,
  get_elem?, arith, ℤ, pos, negsuc, take, drop, All, All-append, All-take, All-drop,
}
use ea_share.Tray.Profiles.{TargetProfile, ControllerProfile, edge_values, HasEdge}
use ea_share.Tray.Profiles.Edges.{value-index_of_edge, index_of_edge-value}
use ea_share.Tray.Editor.{
  Form, Page, update, commit_at, commit, shown, load, select, raise, refresh, removed, remove,
}
use ea_share.Tray.Editor.Forms.{
  CtrlFields, target_form, ctrl_form, edge_at, TargetPage, CtrlPage, remove_target, remove_ctrl,
}

module _ {P F : Type 0} (form : Form P F) where
  update-same :
      (i : ℕ) (f : F) (ps : List P) {p : P}
      → get_elem? ps i ≡ some p
      → get_elem? (update form i f ps) i ≡ some (form.committed f p)
  unfolding update
  update-same i f [] e = cc
  update-same zero f (c ∷ ps) e = cc
  update-same (suc i) f (c ∷ ps) e = update-same i f ps e

  update-other :
      (i j : ℕ) (f : F) (ps : List P) → i ≢ j → get_elem? (update form i f ps) j ≡ get_elem? ps j
  unfolding update
  update-other i j f [] ne = refl
  update-other zero zero f (c ∷ ps) ne = absurd (ne refl)
  update-other zero (suc j) f (c ∷ ps) ne = refl
  update-other (suc i) zero f (c ∷ ps) ne = refl
  update-other (suc i) (suc j) f (c ∷ ps) ne = update-other i j f ps (λ h. ne (ap suc h))

  -- The profile at `i` after its fields were edited and another one was selected.
  select-commits :
      (i : ℕ) (j : ℤ) (e : Page P F) {p : P}
      → e.selected ≡ pos i
      → get_elem? e.profiles i ≡ some p
      → get_elem? (select form j e).profiles i ≡ some (form.committed e.fields p)
  unfolding select commit commit_at load
  select-commits i j e s c = rw (s, select, commit_at) (update-same i e.fields e.profiles c)

  shown-some :
      (i : ℕ) (ps : List P) {p : P}
      → get_elem? ps i ≡ some p
      → shown form (pos i) ps ≡ form.fields_of p
  unfolding shown
  shown-some i ps h = rw (h, shown) refl

  select-returns :
      (i j : ℕ) (e : Page P F) (p : P)
      → e.selected ≡ pos i
      → get_elem? e.profiles i ≡ some p
      → i ≢ j
      → form.fields_of (form.committed e.fields p) ≡ e.fields
      → let back = select form (pos i) (select form (pos j) e) in
        (back.fields ≡ e.fields) × (get_elem? back.profiles i ≡ some (form.committed e.fields p))
  unfolding select commit commit_at load
  select-returns i j e p s c ne again =
      let there = update-other j i _ _ (λ h. ne (sym h)) ∙ select-commits i (pos j) e s c in
      (shown-some i _ there ∙ again, there)

  -- A profile that is shown and written back untouched stays as it was.
  abbrev pub Keeps : P → Type 0
  Keeps p = form.committed (form.fields_of p) p ≡ p

  update-shown :
      (i : ℕ) (ps : List P) → All Keeps ps → commit_at form (pos i) (shown form (pos i) ps) ps ≡ ps
  unfolding commit_at update shown
  update-shown i [] k = refl
  update-shown zero (p ∷ ps) (k, ks) = ap (λ q. q ∷ ps) k
  update-shown (suc i) (p ∷ ps) (k, ks) = ap (λ qs. p ∷ qs) (update-shown i ps ks)

  commit_at-shown :
      (i : ℤ) (ps : List P) → All Keeps ps → commit_at form i (shown form i ps) ps ≡ ps
  unfolding commit_at
  commit_at-shown (pos i) ps k = update-shown i ps k
  commit_at-shown (negsuc i) ps k = refl

  -- What the list box raises on a page without unsaved fields changes no profile.
  raise-profiles :
      (raised : List ℤ) (e : Page P F)
      → All Keeps e.profiles
      → commit_at form e.selected e.fields e.profiles ≡ e.profiles
      → (raise form raised e).profiles ≡ e.profiles
  unfolding raise select commit load
  raise-profiles [] e k clean = refl
  raise-profiles (i ∷ is) e k clean =
      raise-profiles is (select form i e) (rw clean k) (rw clean (commit_at-shown i e.profiles k))
      ∙ clean

  removed-profiles :
      (i : ℕ) (raised : List ℤ) (e : Page P F)
      → All Keeps e.profiles
      → (removed form i raised e).profiles ≡ take i e.profiles ++ drop (suc i) e.profiles
  unfolding removed refresh load commit_at
  removed-profiles i raised e k =
      raise-profiles raised
        (record e { profiles = take i e.profiles ++ drop (suc i) e.profiles; selected = negsuc 0 })
        (All-append Keeps (take i e.profiles) (drop (suc i) e.profiles)
          (All-take Keeps i e.profiles k) (All-drop Keeps (suc i) e.profiles k))
        refl

  remove-profiles :
      (i : ℕ) (raised : List ℤ) (e : Page P F)
      → i < length e.profiles
      → All Keeps e.profiles
      → (remove form (pos i) true raised e).profiles ≡ take i e.profiles ++ drop (suc i) e.profiles
  unfolding remove
  remove-profiles i raised e l k = ground (arith, removed-profiles i raised e k)

-- A controller's edge that the editor offers survives being shown and written back.
HasEdge-Keeps : (cps : List ControllerProfile) → All HasEdge cps → All (Keeps ctrl_form) cps
unfolding edge_at
HasEdge-Keeps [] h = tt
HasEdge-Keeps (cp ∷ cps) (h, hs) =
    (rw (value-index_of_edge cp.edge h, edge_at) refl, HasEdge-Keeps cps hs)

fields_of-committed :
    (f : CtrlFields) (cp : ControllerProfile) (k : ℕ) (v : String)
    → f.edge ≡ pos k
    → get_elem? edge_values k ≡ some v
    → ctrl_form.fields_of (ctrl_form.committed f cp) ≡ f
unfolding edge_at
fields_of-committed f cp k v e g = rw (e, edge_at, g, index_of_edge-value k v g) refl

-- On the controllers' page, with an edge chosen: selecting another profile and coming back shows the
-- edited fields again, and the profile holds them.
pub select_ctrl-returns :
    (i j k : ℕ) (v : String) (e : CtrlPage) (cp : ControllerProfile)
    → e.selected ≡ pos i
    → get_elem? e.profiles i ≡ some cp
    → i ≢ j
    → e.fields.edge ≡ pos k
    → get_elem? edge_values k ≡ some v
    → let back = select ctrl_form (pos i) (select ctrl_form (pos j) e) in
      (back.fields ≡ e.fields)
      × (get_elem? back.profiles i ≡ some (ctrl_form.committed e.fields cp))
select_ctrl-returns i j k v e cp s c ne f g =
    select-returns ctrl_form i j e cp s c ne (fields_of-committed e.fields cp k v f g)

-- A removal that was confirmed takes exactly the profile at the list's index away, on either page, and
-- whatever events the list box raises meanwhile: the visible fields are written over no other profile. The
-- controllers' edges are ones that the editor offers.
pub remove_exactly :
    (i j : ℕ) (raised raised' : List ℤ) (e : TargetPage) (d : CtrlPage)
    → i < length e.profiles
    → j < length d.profiles
    → All HasEdge d.profiles
    → ((remove_target (pos i) true raised e).profiles
        ≡ take i e.profiles ++ drop (suc i) e.profiles)
      × ((remove_ctrl (pos j) true raised' d).profiles
          ≡ take j d.profiles ++ drop (suc j) d.profiles)
unfolding remove_target remove_ctrl
remove_exactly i j raised raised' e d l l' h = (
  remove-profiles target_form i raised e l (kept e.profiles),
  remove-profiles ctrl_form j raised' d l' (HasEdge-Keeps d.profiles h),
)
  where
    kept : (tps : List TargetProfile) → All (Keeps target_form) tps
    kept [] = tt
    kept (tp ∷ tps) = (refl, kept tps)
