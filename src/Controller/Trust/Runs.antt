-- ===== src/Controller/Trust/Runs.antt =====
-- The trust store from one run of the controller to the next.
use text.Mathlib.Text.{◌==◌ as str_eq}
use ea_share.Base.{
  String, ◌≡◌, ◌≢◌, refl, sym, ◌∙◌, true, Option, none, some, [], ◌∷◌, Bytes, arith, Option-cases,
  Bool-cases, inl, inr,
}
use ea_share.Controller.Trust.{
  Entries, KnownHosts, HostsJson, Consent, Casing, pin, lookup, open_known_hosts, trust, written,
  unknown, verify_connection, verify_pinned, accepted_pins, pinned_decides,
}

-- What is marshalled is not empty, and is unmarshalled as the same map: each key has its value, in whatever
-- order the text holds them.
abbrev pub ReadsBack : HostsJson → Type 0
ReadsBack json =
    (es : Entries) (bytes : Bytes)
    → json.marshal es ≡ some bytes
    → (bytes ≢ [])
      × ((back : Entries) × (json.unmarshal bytes ≡ some back)
          × ((addr : String) → lookup addr back ≡ lookup addr es))

-- The file holds the entries: a run that opens it looks up the same.
abbrev pub IsOnDisk : HostsJson → KnownHosts → Type 0
IsOnDisk json kh =
    (store : KnownHosts) × (open_known_hosts json true kh.file ≡ some store)
    × ((addr : String) → lookup addr store.entries ≡ lookup addr kh.entries)

module _ (json : HostsJson) (casing : Casing) (reads_back : ReadsBack json) where
  written-IsOnDisk :
      (es : Entries) (bytes : Bytes)
      → json.marshal es ≡ some bytes
      → IsOnDisk json (record { entries = es; file = some bytes })
  unfolding open_known_hosts
  written-IsOnDisk es [] m = absurd ((reads_back es [] m).0 refl)
  written-IsOnDisk es (b ∷ bytes) m =
      let (back, read, same) = (reads_back es (b ∷ bytes) m).1 in
      (record { entries = back; file = some (b ∷ bytes) }, rw read refl, same)

  trust-IsOnDisk :
      (c : Consent) (addr got : String) (kh : KnownHosts)
      → (trust json casing c addr got kh).1 ≡ true
      → IsOnDisk json (trust json casing c addr got kh).0
  unfolding trust written
  trust-IsOnDisk c addr got kh h = elim (Option-cases (json.marshal (pin addr got kh.entries))) [
    | inl m ↦ let no = rw (m, trust) at h in cc
    | inr (bytes, m) ↦ elim (Bool-cases c.saves) [
      | inl w ↦ rw (m, w) (written-IsOnDisk (pin addr got kh.entries) bytes m)
      | inr w ↦ let no = rw (m, trust, w) at h in cc
    ]
  ]

  verify_connection-IsOnDisk :
      (c : Consent) (addr got : String) (kh : KnownHosts)
      → IsOnDisk json kh
      → (verify_connection json casing c addr (some got) kh).1 ≡ true
      → IsOnDisk json (verify_connection json casing c addr (some got) kh).0
  unfolding verify_connection unknown
  verify_connection-IsOnDisk c addr got kh d h = elim (Option-cases (lookup addr kh.entries)) [
    | inr (stored, known) ↦ rw (known, verify_connection) d
    | inl new ↦
        let h' = rw (new, verify_connection) at h in
        rw (new, verify_connection) (ground (arith, trust-IsOnDisk c addr got kh))
  ]

  opened-IsOnDisk :
      (file : Option Bytes) (kh : KnownHosts)
      → open_known_hosts json true file ≡ some kh
      → IsOnDisk json kh
  unfolding open_known_hosts
  opened-IsOnDisk none kh e =
      let p : record { entries = []; file = none } ≡ kh = cc in (kh, rw (sym p) refl, λ addr. refl)
  opened-IsOnDisk (some []) kh e =
      let p : record { entries = []; file = some [] } ≡ kh = cc in
      (kh, rw (sym p) refl, λ addr. refl)
  opened-IsOnDisk (some (b ∷ bytes)) kh e = elim (Option-cases (json.unmarshal (b ∷ bytes))) [
    | inl u ↦ let no = rw u at e in cc
    | inr (es, u) ↦
        let e' : some (record { entries = es; file = some (b ∷ bytes) }) ≡ some kh = rw u at e in
        let p : record { entries = es; file = some (b ∷ bytes) } ≡ kh = cc in
        (kh, rw (sym p, u) refl, λ addr. refl)
  ]

  -- Once a run of the controller that opened its store has accepted an address with a fingerprint, every
  -- later run that opens the store accepts exactly that fingerprint there, whatever its flags and its user say;
  -- and it looks that fingerprint up for the clipboard's connection, which is accepted with exactly that one. The entries' JSON text is not
  -- empty and reads back as the same map.
  pub later_run :
      (c later : Consent) (addr got next : String) (file : Option Bytes) (kh : KnownHosts)
      → open_known_hosts json true file ≡ some kh
      → (verify_connection json casing c addr (some got) kh).1 ≡ true
      → (kept : KnownHosts) × (open_known_hosts json true
            (verify_connection json casing c addr (some got) kh).0.file
          ≡ some kept)
        × (verify_connection json casing later addr (some next) kept ≡ (kept, str_eq next got))
        × (lookup addr kept.entries ≡ some got)
        × (verify_pinned got (some next) ≡ str_eq next got)
  unfolding verify_pinned
  later_run c later addr got next file kh opened h =
      let pins = accepted_pins json casing c addr got kh h in
      let (store, opens, same) =
        verify_connection-IsOnDisk c addr got kh (opened-IsOnDisk file kh opened) h in
      let known = same addr ∙ pins in
      (store, opens, pinned_decides json casing later addr got next store known, known, refl)
