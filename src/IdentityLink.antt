-- ===== src/IdentityLink.antt =====
-- internal/tlsutil/tlsutil.go with cmd/controller/main.go: a target that was trusted once and started again, and a
-- controller that was started again.
use ea_share.Base.{
  ◌≡◌, ◌↔◌, refl, sym, ◌∙◌, ap, String, true, Option, some, Bytes, All, IsByte, eq_iff,
}
use ea_share.Identity.{Crypto, Files, Access, Fresh, fingerprint, load_or_generate_cert}
use ea_share.Identity.Stable.{load_or_generate_cert_again}
use ea_share.Identity.Fingerprint.{fingerprint_iff}
use ea_share.Controller.Trust.{
  KnownHosts, HostsJson, Consent, Casing, open_known_hosts, verify_connection, pinned_decides,
}
use ea_share.Controller.Trust.Runs.{ReadsBack, later_run}

module _ (crypto : Crypto) (json : HostsJson) (casing : Casing) (reads_back : ReadsBack json) where
  -- A target has started with a certificate, and a run of the controller accepted it. Then the target, started
  -- again, has the same certificate; a later run of the controller accepts it at that address, whatever its
  -- flags and its user say; and of all other certificates it accepts exactly those with the same SHA-256 digest.
  pub trusted_again :
      (os later_os : Access) (fresh later_fresh : Fresh) (files kept : Files) (der other : Bytes)
      (c later : Consent) (addr : String) (file : Option Bytes) (kh : KnownHosts)
      → load_or_generate_cert crypto os fresh files ≡ (kept, some der)
      → later_os.reads ≡ true
      → open_known_hosts json true file ≡ some kh
      → (verify_connection json casing c addr (some (fingerprint crypto der)) kh).1 ≡ true
      → All IsByte (crypto.sum256 der)
      → All IsByte (crypto.sum256 other)
      → (store : KnownHosts) × (load_or_generate_cert crypto later_os later_fresh kept
          ≡ (kept, some der))
        × (open_known_hosts json true
              (verify_connection json casing c addr (some (fingerprint crypto der)) kh).0.file
            ≡ some store)
        × (verify_connection json casing later addr (some (fingerprint crypto der)) store
            ≡ (store, true))
        × ((verify_connection json casing later addr (some (fingerprint crypto other)) store).1
              ≡ true
            ↔ crypto.sum256 other ≡ crypto.sum256 der)
  trusted_again os later_os fresh later_fresh files kept der other c later addr file kh started r
        opened h d o =
      let fp = fingerprint crypto der in
      let fp' = fingerprint crypto other in
      let (store, again, same, known, pinned) =
        later_run json casing reads_back c later addr fp fp file kh opened h in
      let decided = ap (λ r. r.1) (pinned_decides json casing later addr fp fp' store known) in
      let (f, g) = fingerprint_iff crypto other der o d in
      let (to, from) = eq_iff fp' fp in
      (
        store,
        load_or_generate_cert_again crypto os later_os fresh later_fresh files kept der started r,
        again,
        same ∙ ap (λ b. (store, b)) ((eq_iff fp fp).1 refl),
        (λ e. f (to (sym decided ∙ e)), λ e. decided ∙ from (g e)),
      )
