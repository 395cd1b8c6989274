-- ===== src/Controller/Trust.antt =====
-- cmd/controller/main.go: the decision of `dialAndVerify`, with the trust store of
-- internal/tlsutil/tlsutil.go. Fingerprints and addresses are texts.
pub mod Runs
use text.Mathlib.Text.{◌==◌ as str_eq}
use ea_share.Base.{
  String, ◌≡◌, refl, Bool, true, false, not, ◌||◌, Option, none, some, List, [], ◌∷◌, Bytes,
  if◌then◌else◌, arith, eq_iff, Option-cases, inl, inr,
}

-- `KnownHosts.entries`, a map: of a key that stands twice, the first entry counts, and `lookup` is all that is
-- read of it. The order is not that of the JSON text, where the keys are sorted.
abbrev pub Entries : Type 0
Entries = List (String × String)

-- `KnownHosts`, with the file at its path.
pub record KnownHosts : Type 0 where
  pub entries : Entries
  pub file : Option Bytes

-- `json.MarshalIndent` and `json.Unmarshal` at the entries.
pub record HostsJson : Type 0 where
  pub marshal : Entries → Option Bytes
  pub unmarshal : Bytes → Option Entries

-- The assignment of `KnownHosts.Trust`.
unfoldable pub pin : String → String → Entries → Entries
pin addr fp [] = (addr, fp) ∷ []
pin addr fp ((a, old) ∷ es) = if str_eq a addr then (a, fp) ∷ es else (a, old) ∷ pin addr fp es

-- The `-fingerprint` flag as it is given, whether `-yes` is, what the user types, and whether the store's
-- directory and file can be written.
pub record Consent : Type 0 where
  pub pinned : String
  pub auto_yes : Bool
  pub answer : String
  pub saves : Bool

-- `strings.TrimSpace`, `strings.ToUpper` and `strings.ToLower`.
pub record Casing : Type 0 where
  pub trim_space : String → String
  pub to_upper : String → String
  pub to_lower : String → String

-- `OpenKnownHosts`, of a file that can be read or not; `none` is an error.
unfoldable pub open_known_hosts : HostsJson → Bool → Option Bytes → Option KnownHosts
open_known_hosts json reads none = some (record { entries = []; file = none })
open_known_hosts json reads (some []) =
    if reads then some (record { entries = []; file = some [] }) else none
open_known_hosts json reads (some (b ∷ bytes)) =
    if reads
    then elim (json.unmarshal (b ∷ bytes)) [
      | none ↦ none
      | some es ↦ some (record { entries = es; file = some (b ∷ bytes) })
    ]
    else none

-- `KnownHosts.Lookup`.
unfoldable pub lookup : String → Entries → Option String
lookup addr [] = none
lookup addr ((a, fp) ∷ es) = if str_eq a addr then some fp else lookup addr es

module _ (json : HostsJson) (casing : Casing) where
  written : Bool → Option Bytes → KnownHosts → KnownHosts × Bool
  written saves none kh = (kh, false)
  written saves (some bytes) kh =
      if saves then (record kh { file = some bytes }, true) else (kh, false)

  -- `KnownHosts.Trust`: the store, and whether it succeeded.
  unfoldable pub trust : Consent → String → String → KnownHosts → KnownHosts × Bool
  unfolding written
  trust c addr got kh =
      let es = pin addr got kh.entries in
      written c.saves (json.marshal es) (record kh { entries = es })

  unfoldable pub normalize_fingerprint : String → String
  normalize_fingerprint fp = casing.to_upper (casing.trim_space fp)

  agrees : String → Bool
  agrees line =
      let word = casing.trim_space (casing.to_lower line) in str_eq word "y" || str_eq word "yes"

  unknown : Consent → String → String → KnownHosts → KnownHosts × Bool
  unfolding trust agrees normalize_fingerprint
  unknown c addr got kh =
      let pinned = normalize_fingerprint c.pinned in
      if not (str_eq pinned "")
      then (if str_eq got pinned then trust c addr got kh else (kh, false))
      else if c.auto_yes || agrees c.answer
      then trust c addr got kh
      else (kh, false)

  -- `VerifyConnection` of a peer's fingerprint (`none` without a certificate): the store afterwards, and
  -- whether the connection is accepted.
  unfoldable pub verify_connection :
      Consent → String → Option String → KnownHosts → KnownHosts × Bool
  unfolding unknown
  verify_connection c addr none kh = (kh, false)
  verify_connection c addr (some got) kh = elim (lookup addr kh.entries) [
    | some stored ↦ (kh, str_eq got stored)
    | none ↦ unknown c addr got kh
  ]

-- The check of `pinnedTLSConfig`.
unfoldable pub verify_pinned : String → Option String → Bool
verify_pinned fp none = false
verify_pinned fp (some got) = str_eq got fp

lookup-pin : (addr fp : String) (es : Entries) → lookup addr (pin addr fp es) ≡ some fp
unfolding lookup pin
lookup-pin addr fp [] = ground (arith, eq_iff addr addr)
lookup-pin addr fp ((a, old) ∷ es) = ground (arith, lookup-pin addr fp es)

module _ (json : HostsJson) (casing : Casing) where
  trusted_pins :
      (c : Consent) (addr got : String) (kh : KnownHosts)
      → (trust json casing c addr got kh).0.entries ≡ pin addr got kh.entries
  unfolding trust
  trusted_pins c addr got kh = ground arith

  pub accepted_pins :
      (c : Consent) (addr got : String) (kh : KnownHosts)
      → (verify_connection json casing c addr (some got) kh).1 ≡ true
      → lookup addr (verify_connection json casing c addr (some got) kh).0.entries ≡ some got
  unfolding verify_connection unknown
  accepted_pins c addr got kh h = elim (Option-cases (lookup addr kh.entries)) [
    | inl new ↦ ground (arith, new, lookup-pin addr got kh.entries, trusted_pins c addr got kh)
    | inr (stored, known) ↦ ground (arith, known, eq_iff got stored)
  ]

  pub pinned_decides :
      (c : Consent) (addr stored got : String) (kh : KnownHosts)
      → lookup addr kh.entries ≡ some stored
      → verify_connection json casing c addr (some got) kh ≡ (kh, str_eq got stored)
  unfolding verify_connection
  pinned_decides c addr stored got kh h = rw (h, verify_connection) refl

  -- Once a connection to an address was accepted with a fingerprint, a later one is accepted exactly if it
  -- presents the same, whatever the flags and the user say then.
  pub verify_connection-accepted :
      (c later : Consent) (addr got next : String) (kh : KnownHosts)
      → (verify_connection json casing c addr (some got) kh).1 ≡ true
      → let kept = (verify_connection json casing c addr (some got) kh).0 in
        verify_connection json casing later addr (some next) kept ≡ (kept, str_eq next got)
  verify_connection-accepted c later addr got next kh h =
      pinned_decides later addr got next (verify_connection json casing c addr (some got) kh).0
        (accepted_pins c addr got kh h)
