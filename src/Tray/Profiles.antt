-- ===== src/Tray/Profiles.antt =====
-- cmd/tray/config.go and profile_editor_windows.go: the saved profiles and their validation.
pub mod Edges
pub mod Validation
use text.Mathlib.Text.{◌==◌ as str_eq}
use ea_share.Base.{
  ℕ, zero, suc, ◌≡◌, String, Bool, true, false, not, ◌&&◌, ◌||◌, Option, none, some, List, [], ◌∷◌,
  if◌then◌else◌, length, get_elem?,
}

pub record TargetProfile : Type 0 where
  pub name : String
  pub listen : String
  pub token : String

pub record ControllerProfile : Type 0 where
  pub name : String
  pub connect : String
  pub token : String
  pub edge : String
  pub udp_mouse : Bool

pub record Config : Type 0 where
  pub lang : String
  pub targets : List TargetProfile
  pub controllers : List ControllerProfile

-- The errors of `validateAndCollect`, with the name that their text carries.
pub data Problem : Type 0 where
  name_required : Problem
  name_duplicate listen_required connect_required token_required udp_requires_edge :
      String → Problem

-- `seen[name]`.
unfoldable pub is_seen : List String → String → Bool
is_seen [] n = false
is_seen (m ∷ seen) n = str_eq m n || is_seen seen n

-- `strings.TrimSpace`.
module _ (trim_space : String → String) where
  -- The checks of one profile, in their order; `none` goes on to the next one.
  unfoldable pub target_problem : List String → TargetProfile → Option Problem
  target_problem seen tp =
      let name = trim_space tp.name in
      if str_eq name ""
      then some name_required
      else if is_seen seen name
      then some (name_duplicate name)
      else if str_eq (trim_space tp.listen) ""
      then some (listen_required name)
      else none

  unfoldable pub check_targets : List String → List TargetProfile → Option Problem
  check_targets seen [] = none
  check_targets seen (tp ∷ tps) =
      let rest = check_targets (trim_space tp.name ∷ seen) tps in
      elim (target_problem seen tp) [ some p ↦ some p | none ↦ rest ]

  unfoldable pub controller_problem : List String → ControllerProfile → Option Problem
  controller_problem seen cp =
      let name = trim_space cp.name in
      if str_eq name ""
      then some name_required
      else if is_seen seen name
      then some (name_duplicate name)
      else if str_eq (trim_space cp.connect) ""
      then some (connect_required name)
      else if str_eq (trim_space cp.token) ""
      then some (token_required name)
      else if cp.udp_mouse && str_eq cp.edge ""
      then some (udp_requires_edge name)
      else none

  unfoldable pub check_controllers : List String → List ControllerProfile → Option Problem
  check_controllers seen [] = none
  check_controllers seen (cp ∷ cps) =
      let rest = check_controllers (trim_space cp.name ∷ seen) cps in
      elim (controller_problem seen cp) [ some p ↦ some p | none ↦ rest ]

  -- `validateAndCollect`, once the visible fields are committed.
  unfoldable pub validate : Config → Option Problem
  validate cfg = elim (check_targets [] cfg.targets) [
    | some p ↦ some p
    | none ↦ check_controllers [] cfg.controllers
  ]

unfoldable pub find_target_profile : String → List TargetProfile → Option TargetProfile
find_target_profile n [] = none
find_target_profile n (tp ∷ tps) =
    let rest = find_target_profile n tps in if str_eq tp.name n then some tp else rest

unfoldable pub find_controller_profile : String → List ControllerProfile → Option ControllerProfile
find_controller_profile n [] = none
find_controller_profile n (cp ∷ cps) =
    let rest = find_controller_profile n cps in if str_eq cp.name n then some cp else rest

abbrev pub edge_values : List String
edge_values = "" ∷ "left" ∷ "right" ∷ "top" ∷ "bottom" ∷ []

index_from : ℕ → List String → String → ℕ
index_from i [] v = 0
index_from i (ev ∷ evs) v = let rest = index_from (suc i) evs v in if str_eq ev v then i else rest

unfoldable pub index_of_edge : String → ℕ
unfolding index_from
index_of_edge v = index_from 0 edge_values v

-- The edge is one of those that the editor offers.
abbrev pub HasEdge : ControllerProfile → Type 0
HasEdge cp = is_seen edge_values cp.edge ≡ true
