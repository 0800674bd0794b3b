-- ===== src/Hostcerts.antt =====
-- internal/hostcerts/certs.go: the host certificate and its renewal. The files, the clock and the
-- ssh package's parser and printer are arguments.
pub mod Clock
pub mod Window
pub mod Renewed
pub mod Next
mod Tests
use nokkud.Hostcerts.Clock.{add_time, half_way, second, uint64_to_unix_time}
use nokkud.Certificate.{certificate, plain}
use nokkud.Base.{
  is_empty, ltb, Bytes, ℕ, inl, inr, Bool, true, false, not, Option, none, some, List, [], ◌-◌, ◌*◌,
  ◌^◌, ◌⊎◌, ◌&&◌, ◌||◌, ◌∷◌, ◌==◌, if◌then◌else◌, nat_eq, bytes_eq,
}
use nokkud.Sshd.Account.{trim_space}
use nokkud.Certificate.{Certificate, PublicKey, host_cert, wire_of}

-- The host key and the certificate in their files, `none` where reading fails.
pub record HostFiles : Type 0 where
  pub host_key_pub : Option Bytes
  pub host_key_cert : Option Bytes

-- `renewalDeadline`.
unfoldable pub renewal_deadline : Certificate → ℕ
renewal_deadline c =
    half_way (uint64_to_unix_time c.valid_after) (uint64_to_unix_time c.valid_before)

-- `ssh.CertTimeInfinity`.
abbrev pub cert_time_infinity : ℕ
cert_time_infinity = 2 ^ 64 - 1

-- The test of the principals in `isValid`.
unfoldable pub is_for : Bytes → List Bytes → Bool
is_for target (p ∷ []) = is_empty target || p == target
is_for target _ = is_empty target

-- `isValid`.
unfoldable pub is_valid : ℕ → Certificate → Bytes → Bool
is_valid now c target =
    if not (is_for target c.valid_principals)
    then false
    else if ltb now (uint64_to_unix_time c.valid_after)
    then false
    else c.valid_before == cert_time_infinity || ltb now (renewal_deadline c)

-- `signedBy`; a parsed certificate has a signature key.
unfoldable pub signed_by : Certificate → PublicKey → Bool
signed_by c ca = c.signature_key == wire_of ca

pub data RenewError : Type 0 where
  bad_ca_key sign_failed bad_certificate foreign_ca not_written : RenewError

module _ (parse : Bytes → Option PublicKey) where
  -- `parseCertificateBytes`.
  unfoldable pub parse_certificate_bytes : Bytes → Option Certificate
  parse_certificate_bytes data' = elim (parse (trim_space data')) [
    | some (certificate c) ↦ if c.cert_type == host_cert then some c else none
    | some (plain _) ↦ none
    | none ↦ none
  ]

  -- `matchesKey`.
  unfoldable pub matches_key : Certificate → Bytes → Bool
  matches_key c pub' = elim (parse (trim_space pub')) [
    | none ↦ false
    | some key ↦ c.key == wire_of key
  ]

  -- `Load`.
  unfoldable pub load : HostFiles → Option Certificate
  load files = elim files.host_key_cert [ none ↦ none | some data' ↦ parse_certificate_bytes data' ]

  -- The last test of `needsRenewal`.
  unfoldable pub is_current : ℕ → Bytes → PublicKey → Bytes → Option Certificate → Bool
  is_current now target ca pub' none = false
  is_current now target ca pub' (some c) =
      is_valid now c target && (matches_key c pub' && signed_by c ca)

  -- `needsRenewal`.
  unfoldable pub needs_renewal : ℕ → Bytes → PublicKey → HostFiles → Option Bytes
  needs_renewal now target ca files = elim files.host_key_pub [
    | none ↦ none
    | some pub' ↦ if is_current now target ca pub' (load files) then none else some pub'
  ]

  -- `saveCertificate`; `print` is `ssh.MarshalAuthorizedKey`, and the flag says that the file can be
  -- written.
  unfoldable pub save_certificate :
      (Certificate → Bytes) → Bool → Bytes → PublicKey → HostFiles → HostFiles × Option RenewError
  save_certificate print writes signed ca files = elim (parse_certificate_bytes signed) [
    | none ↦ (files, some bad_certificate)
    | some c ↦
        if not (signed_by c ca)
        then (files, some foreign_ca)
        else if writes
        then (record files { host_key_cert = some (print c) }, none)
        else (files, some not_written)
  ]

  -- `RenewHostCerts`, which says whether a certificate was written; `sign` is what the backend
  -- answers.
  unfoldable pub renew_host_certs :
      (Certificate → Bytes)
      → Bool
      → (Bytes → Option Bytes)
      → ℕ
      → Bytes
      → Bytes
      → HostFiles
      → HostFiles × (Bool ⊎ RenewError)
  renew_host_certs print writes sign now target ca_key files =
      if is_empty ca_key then (files, inl false) else elim (parse ca_key) [
        | none ↦ (files, inr bad_ca_key)
        | some ca ↦ elim (needs_renewal now target ca files) [
          | none ↦ (files, inl false)
          | some pub' ↦ elim (sign pub') [
            | none ↦ (files, inr sign_failed)
            | some signed ↦
                let (files', err) = save_certificate print writes signed ca files in
                (files', elim err [ none ↦ inl true | some e ↦ inr e ])
          ]
        ]
      ]

  -- `NextRenewal` behind the loading.
  unfoldable pub next_for : ℕ → Bytes → Option PublicKey → Option Certificate → ℕ
  next_for now target ca none = now
  next_for now target none (some c) = now
  next_for now target (some ca) (some c) =
      if not (is_valid now c target) || not (signed_by c ca)
      then now
      else if c.valid_before == cert_time_infinity
      then add_time now (24 * 60 * 60 * second)
      else if ltb (renewal_deadline c) now
      then now
      else renewal_deadline c

  -- `NextRenewal`.
  unfoldable pub next_renewal : ℕ → Bytes → Bytes → HostFiles → ℕ
  next_renewal now target ca_key files = next_for now target (parse ca_key) (load files)
