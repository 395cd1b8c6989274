-- ===== src/Identity/Stable.antt =====
-- internal/tlsutil/tlsutil.go: a target keeps its certificate from one run to the next.
use ea_share.Base.{
  ◌≡◌, refl, sym, true, Bool-cases, Option, Option-cases, inl, inr, none, some, Bytes, arith,
}
use ea_share.Identity.{
  Crypto, Files, Access, Fresh, load_key_pair, generate, store, load_or_generate_cert,
}

module _ (c : Crypto) where
  store-loads :
      (os later : Access) (f g : Files) (made : Option (Bytes × Bytes)) (cert : Bytes)
      → store c os f made ≡ (g, some cert)
      → later.reads ≡ true
      → load_key_pair c later g ≡ some cert
  unfolding store load_key_pair
  store-loads os later f g none cert h r = cc
  store-loads os later f g (some (pem, key)) cert h r = ground arith

  load_key_pair-later :
      (os later : Access) (f : Files) (cert : Bytes)
      → load_key_pair c os f ≡ some cert
      → later.reads ≡ true
      → load_key_pair c later f ≡ some cert
  unfolding load_key_pair
  load_key_pair-later os later f cert h r = ground arith

  loads :
      (os later : Access) (fresh : Fresh) (f g : Files) (cert : Bytes)
      → load_or_generate_cert c os fresh f ≡ (g, some cert)
      → later.reads ≡ true
      → load_key_pair c later g ≡ some cert
  unfolding load_or_generate_cert
  loads os later fresh f g cert h r = elim (Option-cases (load_key_pair c os f)) [
    | inr (old, e) ↦
        let h' = rw (e, load_or_generate_cert) at h in
        let same : f ≡ g = cc in
        let kept : old ≡ cert = cc in
        rw (sym same, sym kept) (load_key_pair-later os later f old e r)
    | inl e ↦
        let h' = rw (e, load_or_generate_cert) at h in
        elim (Bool-cases os.makes_dir) [
          | inl m ↦ store-loads os later f g (generate c fresh) cert (rw m at h') r
          | inr m ↦ let no = rw m at h' in cc
        ]
  ]

  -- A start that has a certificate leaves it in the files: the next start that can read them has the same one,
  -- and changes nothing.
  pub load_or_generate_cert_again :
      (os later : Access) (fresh fresh' : Fresh) (f g : Files) (cert : Bytes)
      → load_or_generate_cert c os fresh f ≡ (g, some cert)
      → later.reads ≡ true
      → load_or_generate_cert c later fresh' g ≡ (g, some cert)
  unfolding load_or_generate_cert
  load_or_generate_cert_again os later fresh fresh' f g cert h r =
      rw (load_or_generate_cert, loads os later fresh f g cert h r) refl
