-- ===== src/Identity.antt =====
-- internal/tlsutil/tlsutil.go: the certificate of a target, and its fingerprint.
pub mod Stable
pub mod Fingerprint
use Prim.Native.String.{[] as empty, ◌++◌ as text_append}
use ea_share.Base.{
  ℕ, ◌/◌, ◌%◌, String, Bool, true, false, Option, none, some, List, [], ◌∷◌, Bytes, map, digit,
  if◌then◌else◌,
}

-- The two files in the data directory; `none` is a file that is not there.
pub record Files : Type 0 where
  pub cert : Option Bytes
  pub key : Option Bytes

-- What the system lets happen: reading both files, making the directory, and writing each file.
pub record Access : Type 0 where
  pub reads : Bool
  pub makes_dir : Bool
  pub writes_cert : Bool
  pub writes_key : Bool

-- What `rand.Reader` gives: a private key, and a serial number.
pub record Fresh : Type 0 where
  pub key : Option Bytes
  pub serial : Option ℕ

-- The crypto packages: `x509.CreateCertificate` of the template with a serial number and a private key,
-- `x509.MarshalECPrivateKey`, `pem.EncodeToMemory` of the two blocks, `tls.X509KeyPair` as the certificate that it
-- holds, and SHA-256.
pub record Crypto : Type 0 where
  pub create_certificate : ℕ → Bytes → Option Bytes
  pub marshal_key : Bytes → Option Bytes
  pub certificate_pem : Bytes → Bytes
  pub key_pem : Bytes → Bytes
  pub key_pair : Bytes → Bytes → Option Bytes
  pub sum256 : Bytes → Bytes

infixl 5 ◌>>=◌
abbrev ◌>>=◌ {ℓ κ} : {A : Type ℓ} {B : Type κ} → Option A → (A → Option B) → Option B
none >>= f = none
some a >>= f = f a

-- `fmt.Sprintf("%02X", b)`.
hex_part : ℕ → String
hex_part b = digit (b / 16) "0123456789ABCDEF" (digit (b % 16) "0123456789ABCDEF" "")

-- `strings.Join(parts, ":")`.
joined : List String → String
joined [] = ""
joined (part ∷ []) = part
joined (part ∷ more ∷ parts) = text_append part (text_append ":" (joined (more ∷ parts)))

module _ (c : Crypto) where
  -- `tls.LoadX509KeyPair`.
  unfoldable pub load_key_pair : Access → Files → Option Bytes
  load_key_pair os f =
      if os.reads then (do cert ← f.cert; key ← f.key; c.key_pair cert key) else none

  -- A new certificate and its key, both as PEM.
  unfoldable pub generate : Fresh → Option (Bytes × Bytes)
  generate fresh = do
    priv ← fresh.key
    serial ← fresh.serial
    der ← c.create_certificate serial priv
    key_der ← c.marshal_key priv
    some (c.certificate_pem der, c.key_pem key_der)

  store : Access → Files → Option (Bytes × Bytes) → Files × Option Bytes
  store os f none = (f, none)
  store os f (some (cert, key)) =
      let stored = record f { cert = some cert } in
      if os.writes_cert
      then (if os.writes_key
          then (record stored { key = some key }, c.key_pair cert key)
          else (stored, none))
      else (f, none)

  -- `LoadOrGenerateCert`: the files afterwards, and the certificate where there is no error.
  unfoldable pub load_or_generate_cert : Access → Fresh → Files → Files × Option Bytes
  unfolding load_key_pair store
  load_or_generate_cert os fresh f = elim (load_key_pair os f) [
    | some cert ↦ (f, some cert)
    | none ↦ if os.makes_dir then store os f (generate fresh) else (f, none)
  ]

  unfoldable pub fingerprint : Bytes → String
  unfolding hex_part joined
  fingerprint der = joined (map hex_part (c.sum256 der))
