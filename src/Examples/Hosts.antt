-- ===== src/Examples/Hosts.antt =====
-- The trust decision at a concrete first contact, and in the run after it.
use ea_share.Base.{
  ℕ, zero, suc, String, ◌≢◌, sym, ap, ◌≡◌, ◌↔◌, refl, true, false, ◌&&◌, Option, none, some, [],
  ◌∷◌, Bytes, if◌then◌else◌, arith, eq_iff,
}
use text.Mathlib.Text.{◌==◌ as str_eq}
use ea_share.Controller.Trust.{
  Consent, Entries, KnownHosts, HostsJson, Casing, open_known_hosts, lookup, verify_connection,
  verify_pinned, verify_connection-accepted,
}
use ea_share.Identity.{Crypto, Files, Fresh, fingerprint, generate, load_or_generate_cert}
use ea_share.Identity
use ea_share.IdentityLink.{trusted_again}
use ea_share.Controller.Trust.Runs.{ReadsBack}

abbrev pub casing : Casing
casing = record { trim_space = λ s. s; to_upper = λ s. s; to_lower = λ s. s }

abbrev pub willing : Consent
willing = record { pinned = ""; auto_yes = false; answer = "yes"; saves = true }

-- The texts that a store of the examples may hold, by number.
word : ℕ → String
word zero = "host:24800"
word (suc zero) = "other:24800"
word (suc (suc zero)) = "AA"
word (suc (suc (suc n))) = "AB"

unfoldable pub number : String → Option ℕ
number s =
    if str_eq s "host:24800"
    then some 0
    else if str_eq s "other:24800"
    then some 1
    else if str_eq s "AA"
    then some 2
    else if str_eq s "AB"
    then some 3
    else none

number-word : (s : String) (n : ℕ) → number s ≡ some n → word n ≡ s
unfolding number word
number-word s n e =
    ground (arith, eq_iff s "host:24800", eq_iff s "other:24800", eq_iff s "AA", eq_iff s "AB")

entry_codes : Option ℕ → Option ℕ → Option Bytes → Option Bytes
entry_codes (some i) (some j) (some rest) = some (i ∷ (j ∷ rest))
entry_codes (some i) (some j) none = none
entry_codes (some i) none rest = none
entry_codes none j rest = none

-- Stores of any length.
unfoldable pub codes : Entries → Option Bytes
unfolding entry_codes
codes [] = some []
codes ((a, fp) ∷ es) = entry_codes (number a) (number fp) (codes es)

pub decode : Bytes → Entries
decode [] = []
decode (i ∷ []) = []
decode (i ∷ (j ∷ rest)) = (word i, word j) ∷ decode rest

entry_codes-decode :
    (a fp : String) (es : Entries) (i j : Option ℕ) (rest : Option Bytes) (bytes : Bytes)
    → number a ≡ i
    → number fp ≡ j
    → ((rs : Bytes) → rest ≡ some rs → decode rs ≡ es)
    → entry_codes i j rest ≡ some bytes
    → decode bytes ≡ (a, fp) ∷ es
unfolding entry_codes decode
entry_codes-decode a fp es (some i) (some j) (some rest) bytes ei ej h e =
    let p : i ∷ (j ∷ rest) ≡ bytes = cc in
    rw (sym p, number-word a i ei, number-word fp j ej, h rest refl) refl
entry_codes-decode a fp es (some i) (some j) none bytes ei ej h e = cc
entry_codes-decode a fp es (some i) none rest bytes ei ej h e = cc
entry_codes-decode a fp es none j rest bytes ei ej h e = cc

codes-decode : (es : Entries) (bytes : Bytes) → codes es ≡ some bytes → decode bytes ≡ es
unfolding codes decode
codes-decode [] bytes e = let p : [] ≡ bytes = cc in rw (sym p) refl
codes-decode ((a, fp) ∷ es) bytes e =
    entry_codes-decode a fp es (number a) (number fp) (codes es) bytes refl refl (codes-decode es) e

abbrev pub braced : Option Bytes → Option Bytes
braced none = none
braced (some bytes) = some (b'{' ∷ bytes)

abbrev pub unbraced : Bytes → Option Entries
unbraced [] = none
unbraced (b ∷ bytes) = some (decode bytes)

abbrev pub hosts : HostsJson
hosts = record { marshal = λ es. braced (codes es); unmarshal = unbraced }

hosts-ReadsBack : ReadsBack hosts
hosts-ReadsBack es bytes e = go (codes es) refl e
  where
    go :
        (o : Option Bytes)
        → codes es ≡ o
        → braced o ≡ some bytes
        → (bytes ≢ [])
          × ((back : Entries) × (unbraced bytes ≡ some back)
              × ((addr : String) → lookup addr back ≡ lookup addr es))
    go none q e = cc
    go (some bs) q e =
        let p : b'{' ∷ bs ≡ bytes = cc in
        rw (sym p)
          (λ empty. cc, (decode bs, refl, λ addr. ap (λ x. lookup addr x) (codes-decode es bs q)))

abbrev known : KnownHosts
known = record { entries = ("other:24800", "CC") ∷ []; file = none }

abbrev pub empty_hosts : KnownHosts
empty_hosts = record { entries = []; file = none }

abbrev forgetful : HostsJson
forgetful = record { marshal = λ es. some []; unmarshal = λ bytes. none }

first_contact : (verify_connection forgetful casing willing "host:24800" (some "AA") known).1 ≡ true
unfolding verify_connection ea_share.Controller.Trust.lookup
first_contact = refl

opened_empty : open_known_hosts hosts true none ≡ some empty_hosts
unfolding open_known_hosts
opened_empty = refl

trusted : (verify_connection hosts casing willing "host:24800" (some "AA") empty_hosts).1 ≡ true
unfolding verify_connection ea_share.Controller.Trust.lookup codes number
    ea_share.Controller.Trust.pin
trusted = refl

-- Certificates are their own digests.
abbrev pub crypto : Crypto
crypto = record {
  create_certificate = λ serial priv. some (170 ∷ []);
  marshal_key = λ priv. some priv;
  certificate_pem = λ der. der;
  key_pem = λ key. key;
  key_pair = λ cert key. some cert;
  sum256 = λ der. der;
}

abbrev pub all_access : Identity.Access
all_access = record { reads = true; makes_dir = true; writes_cert = true; writes_key = true }

abbrev pub key_9 : Fresh
key_9 = record { key = some (9 ∷ []); serial = some 1 }

abbrev pub no_files : Files
no_files = record { cert = none; key = none }

abbrev saved_files : Files
saved_files = record { cert = some (170 ∷ []); key = some (9 ∷ []) }

generated : load_or_generate_cert crypto all_access key_9 no_files ≡ (saved_files, some (170 ∷ []))
unfolding load_or_generate_cert generate
generated = refl

trusted_certificate :
    (verify_connection hosts casing willing "host:24800"
      (some (fingerprint crypto (170 ∷ [])))
      empty_hosts).1
    ≡ true
unfolding verify_connection ea_share.Controller.Trust.lookup codes number
    ea_share.Controller.Trust.pin fingerprint ea_share.Base.digit
trusted_certificate = refl

trusted_again_example :
    let first =
      verify_connection hosts casing willing "host:24800"
        (some (fingerprint crypto (170 ∷ [])))
        empty_hosts in
    (store : KnownHosts) × (load_or_generate_cert crypto all_access key_9 saved_files
      ≡ (saved_files, some (170 ∷ [])))
    × (open_known_hosts hosts true first.0.file ≡ some store)
    × (verify_connection hosts casing willing "host:24800"
          (some (fingerprint crypto (170 ∷ [])))
          store
        ≡ (store, true))
    × ((verify_connection hosts casing willing "host:24800"
            (some (fingerprint crypto (171 ∷ [])))
            store).1
          ≡ true
        ↔ crypto.sum256 (171 ∷ []) ≡ 170 ∷ [])
trusted_again_example =
    trusted_again crypto hosts casing hosts-ReadsBack all_access all_access key_9 key_9 no_files
      saved_files (170 ∷ []) (171 ∷ []) willing willing "host:24800" none empty_hosts generated refl
      opened_empty trusted_certificate (omega arith, tt) (omega arith, tt)
