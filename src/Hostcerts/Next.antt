-- ===== src/Hostcerts/Next.antt =====
-- When the next renewal is, and that a renewal settles.
use nokkud.Certificate.{certificate}
use nokkud.Base.{
  ltb, and_split, Bytes, ℕ, refl, inl, inr, Bool, true, false, Option, none, some, arith, ◌≤◌, ◌<◌,
  ◌≡◌, ◌↔◌, ◌&&◌, ◌==◌, nat_eq, bytes_eq,
}
use nokkud.Certificate.{Certificate, PublicKey, host_cert}
use nokkud.Sshd.Account.{trim_space}
use nokkud.Certificate.{plain}
use nokkud.Hostcerts.Renewed.{renewal_stores, renewed}
use nokkud.Hostcerts.{
  HostFiles, cert_time_infinity, is_current, is_valid, load, matches_key, needs_renewal, next_for,
  next_renewal, parse_certificate_bytes, renew_host_certs, renewal_deadline, signed_by,
}

module _ (parse : Bytes → Option PublicKey) where
  needs_renewal-none :
      (now : ℕ) (target host_pub : Bytes) (ca : PublicKey) (c : Certificate) (files : HostFiles)
      → files.host_key_pub ≡ some host_pub
      → load parse files ≡ some c
      → (needs_renewal parse now target ca files ≡ none)
        ↔ ((is_valid now c target && (matches_key parse c host_pub && signed_by c ca)) ≡ true)
  unfolding needs_renewal is_current
  needs_renewal-none now target host_pub ca c files k l = (λ n. ground arith, λ v. ground arith)

  is_valid-later :
      (now later : ℕ) (c : Certificate) (target : Bytes)
      → now ≤ later
      → (c.valid_before == cert_time_infinity) ≡ false
      → is_valid now c target ≡ true
      → is_valid later c target ≡ ltb later (renewal_deadline c)
  unfolding is_valid
  is_valid-later now later c target h f e = ground arith

  is_valid-early :
      (now : ℕ) (c : Certificate) (target : Bytes)
      → (c.valid_before == cert_time_infinity) ≡ false
      → is_valid now c target ≡ true
      → now < renewal_deadline c
  unfolding is_valid
  is_valid-early now c target f e = ground arith

  next_renewal-deadline :
      (now : ℕ) (target ca_key : Bytes) (ca : PublicKey) (c : Certificate) (files : HostFiles)
      → parse ca_key ≡ some ca
      → load parse files ≡ some c
      → (c.valid_before == cert_time_infinity) ≡ false
      → is_valid now c target ≡ true
      → signed_by c ca ≡ true
      → next_renewal parse now target ca_key files ≡ renewal_deadline c
  unfolding next_renewal next_for
  next_renewal-deadline now target ca_key ca c files p l f v s =
      rw (p, l) (ground (arith, v, s, f, is_valid-early now c target f v))

  -- With a certificate that needs no renewal now and is not valid for ever, `NextRenewal` is the
  -- exact time of the next one: before it `needsRenewal` finds nothing to do, from then on it does.
  -- The conditions: the host key can be read, and the CA key is that of the certificate.
  pub next_renewal_exact :
      (now later : ℕ) (target ca_key host_pub : Bytes) (ca : PublicKey) (c : Certificate)
      (files : HostFiles)
      → now ≤ later
      → parse ca_key ≡ some ca
      → files.host_key_pub ≡ some host_pub
      → load parse files ≡ some c
      → (c.valid_before == cert_time_infinity) ≡ false
      → needs_renewal parse now target ca files ≡ none
      → (needs_renewal parse later target ca files ≡ none)
        ↔ (later < next_renewal parse now target ca_key files)
  next_renewal_exact now later target ca_key host_pub ca c files h p k l f n = (
    λ e.
        let (v, rest) =
          and_split (is_valid later c target) (matches_key parse c host_pub && signed_by c ca)
            ((needs_renewal-none later target host_pub ca c files k l).0 e) in
        ground (arith, v, next, is_valid-later now later c target h f valid),
    λ e.
        (needs_renewal-none later target host_pub ca c files k l).1
          (ground (arith, e, next, is_valid-later now later c target h f valid, current.1)),
  )
    where
      current :
          (is_valid now c target ≡ true) × ((matches_key parse c host_pub && signed_by c ca) ≡ true)
      current = and_split _ _ ((needs_renewal-none now target host_pub ca c files k l).0 n)

      valid : is_valid now c target ≡ true
      valid = current.0

      next : next_renewal parse now target ca_key files ≡ renewal_deadline c
      next =
          next_renewal-deadline now target ca_key ca c files p l f valid
            (and_split (matches_key parse c host_pub) (signed_by c ca) current.1).1

  parsed-host :
      (data' : Bytes) (c : Certificate)
      → parse_certificate_bytes parse data' ≡ some c
      → c.cert_type ≡ host_cert
  unfolding parse_certificate_bytes
  parsed-host data' c e = go (parse (trim_space data')) refl
    where
      go : (o : Option PublicKey) → parse (trim_space data') ≡ o → c.cert_type ≡ host_cert
      go none d = absurd (ground arith)
      go (some (plain _)) d = absurd (ground arith)
      go (some (certificate k)) d = ground arith

  load-printed :
      (print : Certificate → Bytes) (c : Certificate) (files : HostFiles)
      → parse (trim_space (print c)) ≡ some (certificate c)
      → c.cert_type ≡ host_cert
      → load parse (record files { host_key_cert = some (print c) }) ≡ some c
  unfolding load parse_certificate_bytes
  load-printed print c files e t = rw (load, parse_certificate_bytes, e) (ground arith)

  renew-idle :
      (print : Certificate → Bytes) (again : Bool) (sign : Bytes → Option Bytes) (later : ℕ)
      (target ca_key : Bytes) (ca : PublicKey) (files : HostFiles)
      → parse ca_key ≡ some ca
      → needs_renewal parse later target ca files ≡ none
      → renew_host_certs parse print again sign later target ca_key files ≡ (files, inl false)
  unfolding renew_host_certs
  renew-idle print again sign later target ca_key ca files p n = ground arith

  -- A renewal that wrote a certificate settles: renewing again, while the certificate is valid, does
  -- nothing. The conditions: a certificate that was parsed and printed parses again, and the backend's answers are
  -- certificates of the key that was sent, which are valid for the target at the later time.
  pub renewal_settles :
      (print : Certificate → Bytes) (writes again : Bool) (sign : Bytes → Option Bytes)
      (now later : ℕ) (target ca_key : Bytes) (files : HostFiles)
      → ((data' : Bytes) (c : Certificate)
          → parse_certificate_bytes parse data' ≡ some c
          → parse (trim_space (print c)) ≡ some (certificate c))
      → ((p signed : Bytes) (c : Certificate)
          → files.host_key_pub ≡ some p
          → sign p ≡ some signed
          → parse_certificate_bytes parse signed ≡ some c
          → (matches_key parse c p && is_valid later c target) ≡ true)
      → renewed (renew_host_certs parse print writes sign now target ca_key files).1 ≡ true
      → let files' = (renew_host_certs parse print writes sign now target ca_key files).0 in
        renew_host_certs parse print again sign later target ca_key files' ≡ (files', inl false)
  renewal_settles print writes again sign now later target ca_key files round good done =
      elim (renewal_stores parse print writes sign now target ca_key files) [
        | inl (_, v) ↦
            let printed = round v.signed v.stored v.parsed in
            let fits = good v.host_pub v.signed v.stored v.key_known v.answered v.parsed in
            rw (v.written) (
              renew-idle print again sign later target ca_key v.ca
                (record files { host_key_cert = some (print v.stored) }) v.ca_known
                ((needs_renewal-none later target v.host_pub v.ca v.stored
                    (record files { host_key_cert = some (print v.stored) }) v.key_known
                    (load-printed print v.stored files printed
                      (parsed-host v.signed v.stored v.parsed))).1
                  (ground (arith, fits, v.by_ca))))
        | inr (e, _) ↦ absurd (ground arith)
      ]
