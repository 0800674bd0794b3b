-- ===== src/Hostcerts/Renewed.antt =====
-- What a renewal stores.
use nokkud.Base.{
  is_empty, Bool-cases, Option-cases, Bytes, ℕ, inl, inr, Bool, true, false, Option, some, arith,
  ◌≡◌, ◌⊎◌, ◌&&◌,
}
use nokkud.Hostcerts.{
  HostFiles, RenewError, needs_renewal, parse_certificate_bytes, renew_host_certs, save_certificate,
  signed_by,
}
use nokkud.Certificate.{Certificate, PublicKey}

abbrev pub renewed : Bool ⊎ RenewError → Bool
renewed (inl b) = b
renewed (inr _) = false

module _ (parse : Bytes → Option PublicKey) (print : Certificate → Bytes) where
  -- What a renewal stores: a host certificate that the trusted CA has signed, which the backend
  -- answered to the host key.
  pub record Stored (sign : Bytes → Option Bytes) (ca_key : Bytes) (files files' : HostFiles)
      : Type 0 where
    pub host_pub : Bytes
    pub signed : Bytes
    pub stored : Certificate
    pub ca : PublicKey
    pub key_known : files.host_key_pub ≡ some host_pub
    pub answered : sign host_pub ≡ some signed
    pub parsed : parse_certificate_bytes parse signed ≡ some stored
    pub ca_known : parse ca_key ≡ some ca
    pub by_ca : signed_by stored ca ≡ true
    pub written : files' ≡ record files { host_key_cert = some (print stored) }

  needs_renewal-pub :
      (now : ℕ) (target : Bytes) (ca : PublicKey) (files : HostFiles) (p : Bytes)
      → needs_renewal parse now target ca files ≡ some p
      → files.host_key_pub ≡ some p
  unfolding needs_renewal
  needs_renewal-pub now target ca files p e = elim (Option-cases files.host_key_pub) [
    | inl d ↦ absurd (ground arith)
    | inr (q, d) ↦ ground arith
  ]

  pub renewal_stores :
      (writes : Bool) (sign : Bytes → Option Bytes) (now : ℕ) (target ca_key : Bytes)
      (files : HostFiles)
      → let (files', answer) = renew_host_certs parse print writes sign now target ca_key files in
        ((renewed answer ≡ true) × Stored sign ca_key files files')
        ⊎ ((renewed answer ≡ false) × (files' ≡ files))
  unfolding renew_host_certs save_certificate
  renewal_stores writes sign now target ca_key files = elim (Bool-cases (is_empty ca_key)) [
    | inl a ↦ inr (ground arith, ground arith)
    | inr a ↦ elim (Option-cases (parse ca_key)) [
      | inl b ↦ inr (ground arith, ground arith)
      | inr (ca, b) ↦ elim (Option-cases (needs_renewal parse now target ca files)) [
        | inl c ↦ inr (ground arith, ground arith)
        | inr (p, c) ↦ elim (Option-cases (sign p)) [
          | inl d ↦ inr (ground arith, ground arith)
          | inr (signed, d) ↦ elim (Option-cases (parse_certificate_bytes parse signed)) [
            | inl e ↦ inr (ground arith, ground arith)
            | inr (cert, e) ↦ elim (Bool-cases (signed_by cert ca && writes)) [
              | inr f ↦ inr (ground arith, ground arith)
              | inl f ↦ inl (
                ground arith,
                record {
                  host_pub = p;
                  signed = signed;
                  stored = cert;
                  ca = ca;
                  key_known = needs_renewal-pub now target ca files p c;
                  answered = d;
                  parsed = e;
                  ca_known = b;
                  by_ca = ground arith;
                  written = ground arith;
                },
              )
            ]
          ]
        ]
      ]
    ]
  ]
