-- ===== src/Tray/Profiles/Validation.antt =====
-- What a saved configuration is sure to be, and that the controller's own checks accept its profiles.
use text.Mathlib.Text.{◌==◌ as str_eq}
use ea_share.Base.{
  String, ◌≡◌, ◌↔◌, refl, Bool, true, false, ◌&&◌, ◌||◌, Option, none, some, List, [], ◌∷◌, All,
  map, arith, Bool-cases, inl, inr, eq_iff,
}
use ea_share.Tray.Profiles.{
  TargetProfile, ControllerProfile, Config, Problem, is_seen, target_problem, check_targets,
  controller_problem, check_controllers, validate, edge_values, HasEdge,
}
use ea_share.Tray.Profiles.Edges.{edge_cases}
use ea_share.Protocol.{Edge}
use ea_share.Controller.Handshake.{proceed, check_flags, parse_edge}

-- No name stands twice in the list.
abbrev IsDistinct : List String → Type 0
IsDistinct [] = Unit
IsDistinct (n ∷ ns) = All (λ m. str_eq n m ≡ false) ns × IsDistinct ns

abbrev IsBlank : String → Type 0
IsBlank s = str_eq s "" ≡ true

abbrev IsFilled : String → Type 0
IsFilled s = str_eq s "" ≡ false

-- Names that a set of names lacks.
abbrev AreNew : List String → List String → Type 0
AreNew seen ns = All (λ n. is_seen seen n ≡ false) ns

or-false : (a b : Bool) → (a || b) ≡ false ↔ ((a ≡ false) × (b ≡ false))
or-false true b = (λ h. cc, λ (h, k). cc)
or-false false b = (λ h. (refl, h), λ (h, k). k)

or_else-none :
    (o rest : Option Problem)
    → elim o [ some p ↦ some p | none ↦ rest ] ≡ none ↔ ((o ≡ none) × (rest ≡ none))
or_else-none none rest = (λ h. (refl, h), λ (h, k). k)
or_else-none (some p) rest = (λ h. cc, λ (h, k). cc)

AreNew-cons :
    (n : String) (seen ns : List String)
    → AreNew (n ∷ seen) ns ↔ (All (λ m. str_eq n m ≡ false) ns × AreNew seen ns)
unfolding is_seen
AreNew-cons n seen [] = (λ h. (tt, tt), λ h. tt)
AreNew-cons n seen (m ∷ ns) =
    let (f, g) = AreNew-cons n seen ns in
    let (u, v) = or-false (str_eq n m) (is_seen seen m) in
    (
      λ (h, hs). (((u h).0, (f hs).0), ((u h).1, (f hs).1)),
      λ ((e, es), (h, hs)). (v (e, h), g (es, hs)),
    )

-- The two loops have one shape: they stop at the first problem, and remember the names.
module _ {A : Type 0} (name : A → String) (IsGood : A → Type 0)
    (problem : List String → A → Option Problem) (check : List String → List A → Option Problem)
    (check-nil : (seen : List String) → check seen [] ≡ none)
    (check-cons : (seen : List String) (x : A) (xs : List A)
      → check seen (x ∷ xs) ≡ none ↔ ((problem seen x ≡ none) × (check (name x ∷ seen) xs ≡ none)))
    (problem-none : (seen : List String) (x : A)
      → problem seen x ≡ none ↔ (IsGood x × (is_seen seen (name x) ≡ false))) where
  check-none :
      (seen : List String) (xs : List A)
      → check seen xs ≡ none
        ↔ (All IsGood xs × IsDistinct (map name xs) × AreNew seen (map name xs))
  check-none seen [] = (λ h. (tt, tt, tt), λ h. check-nil seen)
  check-none seen (x ∷ xs) =
      let (f, g) = check-none (name x ∷ seen) xs in
      let (new, old) = AreNew-cons (name x) seen (map name xs) in
      let (good, accept) = problem-none seen x in
      let (split, join) = check-cons seen x xs in
      (
        λ h.
            let (p, q) = split h in
            let (all, distinct, fresh) = f q in
            (((good p).0, all), ((new fresh).0, distinct), ((good p).1, (new fresh).1)),
        λ ((x_good, all), (x_new, distinct), (x_fresh, fresh)).
            join (accept (x_good, x_fresh), g (all, distinct, old (x_new, fresh))),
      )

AreNew-nil : (ns : List String) → AreNew [] ns
unfolding is_seen
AreNew-nil [] = tt
AreNew-nil (n ∷ ns) = (refl, AreNew-nil ns)

module _ (trim_space : String → String) where
  abbrev IsGoodTarget : TargetProfile → Type 0
  IsGoodTarget tp = IsFilled (trim_space tp.name) × IsFilled (trim_space tp.listen)

  -- A name, an address and a token, and no UDP mouse without an edge.
  abbrev IsGoodController : ControllerProfile → Type 0
  IsGoodController cp =
      IsFilled (trim_space cp.name)
      × IsFilled (trim_space cp.connect)
      × IsFilled (trim_space cp.token)
      × (cp.udp_mouse && str_eq cp.edge "" ≡ false)

  target_problem-none :
      (seen : List String) (tp : TargetProfile)
      → target_problem trim_space seen tp ≡ none
        ↔ (IsGoodTarget tp × (is_seen seen (trim_space tp.name) ≡ false))
  unfolding target_problem
  target_problem-none seen tp = (λ h. ground arith, λ h. ground arith)

  controller_problem-none :
      (seen : List String) (cp : ControllerProfile)
      → controller_problem trim_space seen cp ≡ none
        ↔ (IsGoodController cp × (is_seen seen (trim_space cp.name) ≡ false))
  unfolding controller_problem
  controller_problem-none seen cp = (λ h. ground arith, λ h. ground arith)

  check_targets-cons :
      (seen : List String) (tp : TargetProfile) (tps : List TargetProfile)
      → check_targets trim_space seen (tp ∷ tps) ≡ none ↔ (
          (target_problem trim_space seen tp ≡ none)
          × (check_targets trim_space (trim_space tp.name ∷ seen) tps ≡ none))
  unfolding check_targets
  check_targets-cons seen tp tps = or_else-none _ _

  check_controllers-cons :
      (seen : List String) (cp : ControllerProfile) (cps : List ControllerProfile)
      → check_controllers trim_space seen (cp ∷ cps) ≡ none ↔ (
          (controller_problem trim_space seen cp ≡ none)
          × (check_controllers trim_space (trim_space cp.name ∷ seen) cps ≡ none))
  unfolding check_controllers
  check_controllers-cons seen cp cps = or_else-none _ _

  -- A configuration is what may be saved: every profile is complete, and among the targets, as among the
  -- controllers, no two names agree once their outer blanks are gone.
  abbrev pub IsSaveable : Config → Type 0
  IsSaveable cfg =
      All IsGoodTarget cfg.targets
      × IsDistinct (map (λ tp. trim_space tp.name) cfg.targets)
      × All IsGoodController cfg.controllers
      × IsDistinct (map (λ cp. trim_space cp.name) cfg.controllers)

  -- The validation finds no problem exactly in a configuration whose profiles are all complete and whose
  -- targets, and whose controllers, have trimmed names that all differ.
  pub validate-IsSaveable : (cfg : Config) → validate trim_space cfg ≡ none ↔ IsSaveable cfg
  unfolding validate check_targets check_controllers
  validate-IsSaveable cfg =
      let (split, join) =
        or_else-none (check_targets trim_space [] cfg.targets)
          (check_controllers trim_space [] cfg.controllers) in
      let (t, t') =
        check-none (λ tp. trim_space tp.name) IsGoodTarget (target_problem trim_space)
          (check_targets trim_space) (λ seen. refl) check_targets-cons target_problem-none []
          cfg.targets in
      let (c, c') =
        check-none (λ cp. trim_space cp.name) IsGoodController (controller_problem trim_space)
          (check_controllers trim_space) (λ seen. refl) check_controllers-cons
          controller_problem-none [] cfg.controllers in
      (
        λ h. let (a, b) = split h in ((t a).0, (t a).1, (c b).0, (c b).1),
        λ (a, b, d, e). join (t' (a, b, AreNew-nil _), c' (d, e, AreNew-nil _)),
      )

  is_filled : (t : String) → trim_space "" ≡ "" → IsFilled (trim_space t) → IsFilled t
  is_filled t e h = elim (Bool-cases (str_eq t "")) [
    | inr no_blank ↦ no_blank
    | inl blank ↦ let p = (eq_iff t "").0 blank in let k = rw (p, e) at h in cc
  ]

  abbrev pub Starts : ControllerProfile → Type 0
  Starts cp = (e : Option Edge) × (check_flags cp.connect cp.token cp.edge cp.udp_mouse ≡ proceed e)

  parse_edge-HasEdge :
      (edge : String)
      → is_seen edge_values edge ≡ true
      → (e : Option Edge) × (parse_edge edge ≡ proceed e)
  unfolding parse_edge
  parse_edge-HasEdge =
      edge_cases _ (none, refl) (some Edge.left, refl) (some Edge.right, refl) (some Edge.top, refl)
        (some Edge.bottom, refl)

  good_controller-Starts :
      (cp : ControllerProfile) → trim_space "" ≡ "" → IsGoodController cp → HasEdge cp → Starts cp
  unfolding check_flags
  good_controller-Starts cp e (n, c, t, u) h =
      let (edge, parsed) = parse_edge-HasEdge cp.edge h in
      (edge, ground (arith, is_filled cp.connect e c, is_filled cp.token e t, parsed))

  -- Every controller profile of a configuration that passed the validation, with an edge that the editor
  -- offers, gets through the controller's own checks of its flags.
  pub validate-Starts :
      (cfg : Config)
      → trim_space "" ≡ ""
      → validate trim_space cfg ≡ none
      → All HasEdge cfg.controllers
      → All Starts cfg.controllers
  validate-Starts cfg e v h =
      let (t, dt, c, dc) = (validate-IsSaveable cfg).0 v in go cfg.controllers c h
    where
      go :
          (cps : List ControllerProfile)
          → All IsGoodController cps
          → All HasEdge cps
          → All Starts cps
      go [] g h = tt
      go (cp ∷ cps) (g, gs) (h, hs) = (good_controller-Starts cp e g h, go cps gs hs)
