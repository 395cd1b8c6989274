-- ===== src/Tray/Processes/Runs.antt =====
-- The tray over any run of clicks, starts, lines of output, and exits with their reports. A start has three parts,
-- and anything may come between them.
use text.Mathlib.Text.{◌==◌ as str_eq}
use ea_share.Base.{
  ℕ, ◌==◌, ◌≡◌, ◌≢◌, refl, String, Bool, true, false, ◌||◌, Option, none, some, arith, eq_iff,
  Bool-cases, inl, inr,
}
use ea_share.Tray.Profiles.{TargetProfile, ControllerProfile}
use ea_share.Tray.Store.{ConfigJson, Access}
use ea_share.Tray.Processes.{
  App, Watch, Strings, kill, spawn, launch, target_args, ctrl_args, clear_target, register_target,
  stop_target, start_target, on_target_exit, clear_controller, register_controller, stop_controller,
  on_ctrl_exit, on_exit, died, on_line, on_ctrl_line, track, track_ctrl, note_token,
  set_target_conn, set_ctrl_conn, upgrade_target_conn_at_least_tcp, upgrade_ctrl_conn_at_least_tcp,
  save_generated_target_token,
}

-- The process that a slot knows is `q`.
abbrev pub runs : Option ℕ → ℕ → Bool
runs none q = false
runs (some p) q = q == p

-- How far a start has come: none is under way, the slot is cleared, or the process runs and is not registered.
pub data Start {ℓ} (P : Type ℓ) : Type ℓ where
  resting : Start P
  cleared : P → Start P
  launched : P → ℕ → Start P

pub record Tray : Type 0 where
  pub app : App
  pub target : Start TargetProfile
  pub ctrl : Start ControllerProfile

abbrev pub tray : App → Start TargetProfile → Start ControllerProfile → Tray
tray a t c = record { app = a; target = t; ctrl = c }

-- What happens to the tray. Processes end at any time, also before they are registered. A report of an exit
-- comes late or early, but not for the name of a process that the slot holds and that is alive; and a start
-- of one kind begins when no other of that kind is under way.
pub data Step (json : ConfigJson) (os : Access) (strings : Strings) : Tray → Tray → Type 0 where
  target_cleared :
      {a : App} {c : Start ControllerProfile} (tp : TargetProfile)
      → Step json os strings (tray a resting c) (tray (clear_target a) (cleared tp) c)
  target_failed :
      {a : App} {c : Start ControllerProfile} (tp : TargetProfile)
      → Step json os strings (tray a (cleared tp) c) (tray a resting c)
  target_launched :
      {a : App} {c : Start ControllerProfile} (tp : TargetProfile) (p : ℕ)
      → a.alive p ≡ false
      → Step json os strings
          (tray a (cleared tp) c)
          (tray (launch p (target_args tp) a) (launched tp p) c)
  target_registered :
      {a : App} {c : Start ControllerProfile} (tp : TargetProfile) (p : ℕ)
      → Step json os strings (tray a (launched tp p) c) (tray (register_target tp p a) resting c)
  target_stopped :
      {a : App} {t : Start TargetProfile} {c : Start ControllerProfile}
      → Step json os strings (tray a t c) (tray (stop_target a) t c)
  target_printed :
      {a : App} {t : Start TargetProfile} {c : Start ControllerProfile} (text : String) (w : Watch)
      → Step json os strings (tray a t c) (tray (on_line json os strings text w a).1 t c)
  target_reported :
      {a : App} {t : Start TargetProfile} {c : Start ControllerProfile} (name : String)
      → ((q : ℕ)
          → runs a.target.running q ≡ true
          → str_eq a.target.name name ≡ true
          → a.alive q ≡ false)
      → Step json os strings (tray a t c) (tray (on_target_exit name a) t c)
  process_ended :
      {a : App} {t : Start TargetProfile} {c : Start ControllerProfile} (p : ℕ)
      → Step json os strings (tray a t c) (tray (died p a) t c)
  ctrl_cleared :
      {a : App} {t : Start TargetProfile} (cp : ControllerProfile)
      → Step json os strings (tray a t resting) (tray (clear_controller a) t (cleared cp))
  ctrl_failed :
      {a : App} {t : Start TargetProfile} (cp : ControllerProfile)
      → Step json os strings (tray a t (cleared cp)) (tray a t resting)
  ctrl_launched :
      {a : App} {t : Start TargetProfile} (cp : ControllerProfile) (p : ℕ)
      → a.alive p ≡ false
      → Step json os strings
          (tray a t (cleared cp))
          (tray (launch p (ctrl_args cp) a) t (launched cp p))
  ctrl_registered :
      {a : App} {t : Start TargetProfile} (cp : ControllerProfile) (p : ℕ)
      → Step json os strings
          (tray a t (launched cp p))
          (tray (register_controller cp p a) t resting)
  ctrl_stopped :
      {a : App} {t : Start TargetProfile} {c : Start ControllerProfile}
      → Step json os strings (tray a t c) (tray (stop_controller a) t c)
  ctrl_printed :
      {a : App} {t : Start TargetProfile} {c : Start ControllerProfile} (text : String)
      → Step json os strings (tray a t c) (tray (on_ctrl_line json os strings text a) t c)
  ctrl_reported :
      {a : App} {t : Start TargetProfile} {c : Start ControllerProfile} (name : String)
      → ((q : ℕ)
          → runs a.ctrl.running q ≡ true
          → str_eq a.ctrl.name name ≡ true
          → a.alive q ≡ false)
      → Step json os strings (tray a t c) (tray (on_ctrl_exit name a) t c)

pub data Reach (json : ConfigJson) (os : Access) (strings : Strings) (start : Tray)
    : Tray → Type 0 where
  here : Reach json os strings start start
  next :
      {b c : Tray}
      → Reach json os strings start b
      → Step json os strings b c
      → Reach json os strings start c

-- The process of a start that is not registered yet.
abbrev pub pending {ℓ} : {P : Type ℓ} → Start P → ℕ → Bool
pending resting q = false
pending (cleared x) q = false
pending (launched x p) q = q == p

-- While a start is under way, the slot is empty.
abbrev IsFree {ℓ} : {P : Type ℓ} → Start P → Option ℕ → Type 0
IsFree resting o = Unit {0}
IsFree (cleared x) o = o ≡ none
IsFree (launched x p) o = o ≡ none

-- Every process that is alive is in a slot, or about to be registered.
abbrev pub IsHeld : Tray → Type 0
IsHeld t =
    (q : ℕ)
    → t.app.alive q ≡ true
    → (runs t.app.target.running q
        || runs t.app.ctrl.running q
        || pending t.target q
        || pending t.ctrl q)
      ≡ true

record IsKept (t : Tray) : Type 0 where
  held : IsHeld t
  target_free : IsFree t.target t.app.target.running
  ctrl_free : IsFree t.ctrl t.app.ctrl.running

kill-alive :
    (o : Option ℕ) (alive : ℕ → Bool) (q : ℕ)
    → kill o alive q ≡ true
    → (alive q ≡ true) × (runs o q ≡ false)
unfolding kill
kill-alive none alive q h = (h, refl)
kill-alive (some p) alive q h = ground arith

IsFree-none {ℓ} : {P : Type ℓ} (s : Start P) → IsFree s none
IsFree-none resting = _
IsFree-none (cleared x) = refl
IsFree-none (launched x p) = refl

-- Neither the processes nor which ones the tray knows have changed.
abbrev IsSame : App → App → Type 0
IsSame a b =
    (b.alive ≡ a.alive) × (b.target.running ≡ a.target.running) × (b.ctrl.running ≡ a.ctrl.running)

IsSame-IsKept :
    {a b : App} (t : Start TargetProfile) (c : Start ControllerProfile)
    → IsSame a b
    → IsKept (tray a t c)
    → IsKept (tray b t c)
IsSame-IsKept t c (alive, target, ctrl) h = record {
  held = rw (alive, target, ctrl) h.held;
  target_free = rw target h.target_free;
  ctrl_free = rw ctrl h.ctrl_free;
}

module _ (json : ConfigJson) (os : Access) (strings : Strings) where
  on_line-IsSame :
      (text : String) (w : Watch) (a : App) → IsSame a (on_line json os strings text w a).1
  unfolding on_line track note_token set_target_conn upgrade_target_conn_at_least_tcp
      save_generated_target_token
  on_line-IsSame text w a = ground arith

  on_ctrl_line-IsSame : (text : String) (a : App) → IsSame a (on_ctrl_line json os strings text a)
  unfolding on_ctrl_line track_ctrl set_ctrl_conn upgrade_ctrl_conn_at_least_tcp
  on_ctrl_line-IsSame text a = ground arith

  target_emptied :
      {a : App} {t : Start TargetProfile} {c : Start ControllerProfile} (u : Start TargetProfile)
      → ((q : ℕ) → pending u q ≡ pending t q)
      → IsKept (tray a t c)
      → IsKept (tray (clear_target a) u c)
  unfolding clear_target
  target_emptied {a} u same h = record {
    held = λ q e.
        let (alive, other) = kill-alive a.target.running a.alive q e in
        ground (arith, h.held q alive, same q, other);
    target_free = IsFree-none u;
    ctrl_free = h.ctrl_free;
  }

  target_launched-IsKept :
      {a : App} {c : Start ControllerProfile} (tp : TargetProfile) (p : ℕ)
      → IsKept (tray a (cleared tp) c)
      → IsKept (tray (launch p (target_args tp) a) (launched tp p) c)
  unfolding launch spawn
  target_launched-IsKept tp p h = record {
    held = λ q e. ground (arith, h.held q, e);
    target_free = h.target_free;
    ctrl_free = h.ctrl_free;
  }

  target_registered-IsKept :
      {a : App} {c : Start ControllerProfile} (tp : TargetProfile) (p : ℕ)
      → IsKept (tray a (launched tp p) c)
      → IsKept (tray (register_target tp p a) resting c)
  unfolding register_target
  target_registered-IsKept {a} tp p h = record {
    held = λ q e. let before = rw (h.target_free) at (h.held q e) in ground (arith, before);
    target_free = _;
    ctrl_free = h.ctrl_free;
  }

  target_reported-IsKept :
      {a : App} {t : Start TargetProfile} {c : Start ControllerProfile} (name : String)
      → ((q : ℕ)
          → runs a.target.running q ≡ true
          → str_eq a.target.name name ≡ true
          → a.alive q ≡ false)
      → IsKept (tray a t c)
      → IsKept (tray (on_target_exit name a) t c)
  unfolding on_target_exit
  target_reported-IsKept {a} {t} name dead h = elim (Bool-cases (str_eq a.target.name name)) [
    | inr other ↦ rw other h
    | inl same ↦ rw same (record {
      held = λ q e. ground (arith, h.held q e, dead q, same, e);
      target_free = IsFree-none t;
      ctrl_free = h.ctrl_free;
    })
  ]

  ctrl_emptied :
      {a : App} {t : Start TargetProfile} {c : Start ControllerProfile}
      (u : Start ControllerProfile)
      → ((q : ℕ) → pending u q ≡ pending c q)
      → IsKept (tray a t c)
      → IsKept (tray (clear_controller a) t u)
  unfolding clear_controller
  ctrl_emptied {a} u same h = record {
    held = λ q e.
        let (alive, other) = kill-alive a.ctrl.running a.alive q e in
        ground (arith, h.held q alive, same q, other);
    target_free = h.target_free;
    ctrl_free = IsFree-none u;
  }

  ctrl_launched-IsKept :
      {a : App} {t : Start TargetProfile} (cp : ControllerProfile) (p : ℕ)
      → IsKept (tray a t (cleared cp))
      → IsKept (tray (launch p (ctrl_args cp) a) t (launched cp p))
  unfolding launch spawn
  ctrl_launched-IsKept cp p h = record {
    held = λ q e. ground (arith, h.held q, e);
    target_free = h.target_free;
    ctrl_free = h.ctrl_free;
  }

  ctrl_registered-IsKept :
      {a : App} {t : Start TargetProfile} (cp : ControllerProfile) (p : ℕ)
      → IsKept (tray a t (launched cp p))
      → IsKept (tray (register_controller cp p a) t resting)
  unfolding register_controller
  ctrl_registered-IsKept {a} cp p h = record {
    held = λ q e. let before = rw (h.ctrl_free) at (h.held q e) in ground (arith, before);
    target_free = h.target_free;
    ctrl_free = _;
  }

  ctrl_reported-IsKept :
      {a : App} {t : Start TargetProfile} {c : Start ControllerProfile} (name : String)
      → ((q : ℕ)
          → runs a.ctrl.running q ≡ true
          → str_eq a.ctrl.name name ≡ true
          → a.alive q ≡ false)
      → IsKept (tray a t c)
      → IsKept (tray (on_ctrl_exit name a) t c)
  unfolding on_ctrl_exit
  ctrl_reported-IsKept {a} {c = c} name dead h = elim (Bool-cases (str_eq a.ctrl.name name)) [
    | inr other ↦ rw other h
    | inl same ↦ rw same (record {
      held = λ q e. ground (arith, h.held q e, dead q, same, e);
      target_free = h.target_free;
      ctrl_free = IsFree-none c;
    })
  ]

  ended-IsKept :
      {a : App} {t : Start TargetProfile} {c : Start ControllerProfile} (p : ℕ)
      → IsKept (tray a t c)
      → IsKept (tray (died p a) t c)
  unfolding died
  ended-IsKept {a} p h = record {
    held = λ q e. h.held q ((kill-alive (some p) a.alive q e).0);
    target_free = h.target_free;
    ctrl_free = h.ctrl_free;
  }

  rested-IsKept :
      {a : App} {t u : Start TargetProfile} {c d : Start ControllerProfile}
      → ((q : ℕ) → pending u q ≡ pending t q)
      → ((q : ℕ) → pending d q ≡ pending c q)
      → IsFree u a.target.running
      → IsFree d a.ctrl.running
      → IsKept (tray a t c)
      → IsKept (tray a u d)
  rested-IsKept st sc ft fc h = record {
    held = λ q e. rw (st q, sc q) (h.held q e);
    target_free = ft;
    ctrl_free = fc;
  }

  Step-IsKept : {s t : Tray} → Step json os strings s t → IsKept s → IsKept t
  unfolding clear_target stop_target clear_controller stop_controller
  Step-IsKept (target_cleared tp) h = target_emptied (cleared tp) (λ q. refl) h
  Step-IsKept (target_failed tp) h = rested-IsKept (λ q. refl) (λ q. refl) _ h.ctrl_free h
  Step-IsKept (target_launched tp p new) h = target_launched-IsKept tp p h
  Step-IsKept (target_registered tp p) h = target_registered-IsKept tp p h
  Step-IsKept (target_stopped {t = t} {c = c}) h =
      IsSame-IsKept t c (refl, refl, refl) (target_emptied t (λ q. refl) h)
  Step-IsKept (target_printed {a} {t} {c} text w) h = IsSame-IsKept t c (on_line-IsSame text w a) h
  Step-IsKept (target_reported name dead) h = target_reported-IsKept name dead h
  Step-IsKept (ctrl_cleared cp) h = ctrl_emptied (cleared cp) (λ q. refl) h
  Step-IsKept (ctrl_failed cp) h = rested-IsKept (λ q. refl) (λ q. refl) h.target_free _ h
  Step-IsKept (ctrl_launched cp p new) h = ctrl_launched-IsKept cp p h
  Step-IsKept (ctrl_registered cp p) h = ctrl_registered-IsKept cp p h
  Step-IsKept (ctrl_stopped {t = t} {c = c}) h =
      IsSame-IsKept t c (refl, refl, refl) (ctrl_emptied c (λ q. refl) h)
  Step-IsKept (ctrl_printed {a} {t} {c} text) h = IsSame-IsKept t c (on_ctrl_line-IsSame text a) h
  Step-IsKept (ctrl_reported name dead) h = ctrl_reported-IsKept name dead h
  Step-IsKept (process_ended p) h = ended-IsKept p h

  Reach-IsKept : {s t : Tray} → Reach json os strings s t → IsKept s → IsKept t
  Reach-IsKept here h = h
  Reach-IsKept (next r s) h = Step-IsKept s (Reach-IsKept r h)

  -- From a start with no process, through any clicks, starts whose parts are interleaved with everything
  -- else, output, processes that end early or late, and their reports, as long as no two starts of one kind
  -- overlap and no late report names a live process of a slot: every process alive is in a slot of the tray
  -- or about to be registered; and after the tray's own exit only one about to be registered is alive.
  pub reached-IsHeld :
      {a : App} {t : Tray}
      → ((q : ℕ) → a.alive q ≡ false)
      → Reach json os strings (tray a resting resting) t
      → IsHeld t
        × ((q : ℕ)
            → (on_exit t.app).alive q ≡ true
            → (pending t.target q || pending t.ctrl q) ≡ true)
  unfolding on_exit
  reached-IsHeld {a} {t} dead r =
      let start : IsKept (tray a resting resting) = record {
        held = λ q e. let no = rw (dead q) at e in cc;
        target_free = _;
        ctrl_free = _;
      } in
      let kept = Reach-IsKept r start in
      (
        kept.held,
        λ q e.
            let (left, no_ctrl) =
              kill-alive t.app.ctrl.running (kill t.app.target.running t.app.alive) q e in
            let (alive, no_target) = kill-alive t.app.target.running t.app.alive q left in
            ground (arith, kept.held q alive, no_ctrl, no_target),
      )

-- A profile is started while it already runs, as "save and restart" does; when the first process's report
-- comes after the second one was registered, the tray forgets the second one: it survives the stop of the
-- target and the tray's own exit.
pub stale_exit :
    (tp : TargetProfile) (p q : ℕ) (a : App)
    → q ≢ p
    → runs a.ctrl.running q ≡ false
    → let b = on_target_exit tp.name (start_target tp (some q) (start_target tp (some p) a)) in
      (b.target.running ≡ none) × ((stop_target b).alive q ≡ true) × ((on_exit b).alive q ≡ true)
unfolding on_target_exit start_target clear_target launch register_target stop_target on_exit kill
    spawn
stale_exit tp p q a h e = rw ((eq_iff tp.name tp.name).1 refl) (refl, ground arith, ground arith)

-- Two starts of a target that overlap: both clear the slot before either registers its process. The second
-- registration makes the tray forget the first process, which then survives the stop and the exit of the tray.
pub overlapping_starts :
    (tp other : TargetProfile) (p q : ℕ) (a : App)
    → q ≢ p
    → runs a.ctrl.running p ≡ false
    → let both =
        launch q (target_args other) (launch p (target_args tp) (clear_target (clear_target a))) in
      let b = register_target other q (register_target tp p both) in
      ((stop_target b).alive p ≡ true) × ((on_exit b).alive p ≡ true)
unfolding clear_target launch register_target stop_target on_exit kill spawn
overlapping_starts tp other p q a h e = (ground arith, ground arith)

-- A process that ends at once reports before it is registered: its name is not in the slot yet, so the report
-- changes nothing, and the tray shows a dead process as running from then on.
pub early_exit :
    (tp : TargetProfile) (p : ℕ) (a : App)
    → str_eq "" tp.name ≡ false
    → let b =
        register_target tp p
          (on_target_exit tp.name (died p (launch p (target_args tp) (clear_target a)))) in
      (b.target.running ≡ some p) × (b.alive p ≡ false)
unfolding clear_target launch register_target on_target_exit died kill spawn
early_exit tp p a named = rw named (refl, ground arith)
