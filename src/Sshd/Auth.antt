-- ===== src/Sshd/Auth.antt =====
-- internal/sshd/auth.go: who may log in.
pub mod Accepts
pub mod Verified
use nokkud.Base.{
  is_empty, contains, Bytes, codes, Dict, lookup, insert, is_some, get_or, ℕ, inl, inr, Bool, not,
  Option, none, some, List, [], ◌∷◌, ◌++◌, ◌==◌, if◌then◌else◌, nat_eq, bytes_eq,
}
use nokkud.Certificate.{user_cert, Certificate, PublicKey, plain, certificate}
use nokkud.Sshd.Audit.{ConnMeta, auth_failure, auth_success, conn_event, Log, emit}
use nokkud.Sshd.Account.{Account, AccountError, not_found, bad_entry, lookup_account, login_allowed}
use nokkud.Sshd.Trust.{Trust, trusted_ca_wire}

-- `ssh.Permissions`; of the `ExtraData` the daemon uses the account only.
pub record Permissions : Type 0 where
  pub critical_options : Dict Bytes Bytes
  pub extensions : Dict Bytes Bytes
  pub account : Option Account

pub data AuthResult : Type 0 where
  accepted : Permissions → AuthResult
  refused : Bytes → AuthResult

-- What the check calls: `CertChecker.CheckCert` of the ssh package (the authority test, the
-- supported critical options, the time, the principal and the certificate; the message of its
-- error, if any), the verbs `%q` and `%d`, `getent` and the nologin file.
pub record AuthDeps : Type 0 where
  pub check_cert : (Bytes → Bool) → List Bytes → ℕ → Bytes → Certificate → Option Bytes
  pub quote : Bytes → Bytes
  pub decimal : ℕ → Bytes
  pub getent : Bytes → Option Bytes
  pub nologin : Option Bytes

-- The loop over the allowed principals, up to the first that the certificate has.
unfoldable pub first_match : List Bytes → List Bytes → Bytes
first_match [] valid = []
first_match (p ∷ allowed) valid = if contains valid p then p else first_match allowed valid

-- The `perms` of an accepted certificate.
unfoldable pub permissions_of : Bytes → Certificate → Permissions
permissions_of matched cert = record {
  critical_options = cert.critical_options;
  extensions = forced;
  account = none;
}
  where
    named : Dict Bytes Bytes
    named = insert (codes "nokku-cert-key-id") cert.key_id (
        insert (codes "nokku-ca") cert.signature_key
          (insert (codes "nokku-principal") matched cert.extensions))

    fc : Bytes
    fc = get_or (lookup (codes "force-command") cert.critical_options) []

    forced : Dict Bytes Bytes
    forced = if is_empty fc then named else insert (codes "force-command") fc named

-- `deny`: the log and the result of a refusal.
unfoldable pub deny : Log → ConnMeta → Bytes → Log × AuthResult
deny log conn err = (emit log (record (conn_event conn auth_failure) { error = err }), refused err)

module _ (d : AuthDeps) where
  -- The checks from the access list on.
  check_principals : ℕ → Trust → List Bytes → Log → ConnMeta → Certificate → Log × AuthResult
  check_principals now trust allowed log conn cert =
      if is_empty allowed
      then deny log conn (codes "sshd: no access rules for user " ++ d.quote conn.user)
      else let matched = first_match allowed cert.valid_principals in
        if is_empty matched
        then deny log conn
            (codes "sshd: certificate principal not authorized for user " ++ d.quote conn.user)
        else elim (d.check_cert (trusted_ca_wire now trust) supported now matched cert) [
          | some err ↦ deny log conn err
          | none ↦ (log, accepted (permissions_of matched cert))
        ]
    where
      supported : List Bytes
      supported = codes "force-command" ∷ codes "source-address" ∷ []

  -- `publicKeyCallback`; `principals` is the server's callback, `now` the time of the login.
  unfoldable pub public_key_callback :
      (Bytes → List Bytes) → ℕ → Trust → Log → ConnMeta → PublicKey → Log × AuthResult
  unfolding check_principals
  public_key_callback principals now trust log conn (plain _) =
      deny log conn (codes "sshd: only certificate authentication is supported")
  public_key_callback principals now trust log conn (certificate cert) =
      if not (cert.cert_type == user_cert)
      then deny log conn (
          codes "sshd: certificate has type "
          ++ (d.decimal cert.cert_type ++ codes ", want user certificate"))
      else if not (trusted_ca_wire now trust cert.signature_key)
      then deny log conn (codes "sshd: certificate signed by unrecognized authority")
      else check_principals now trust (principals conn.user) log conn cert

  account_error_text : AccountError → Bytes
  account_error_text (not_found name) = codes "user " ++ (d.quote name ++ codes " not found")
  account_error_text (bad_entry name) =
      codes "user " ++ (d.quote name ++ codes " has a bad passwd entry")

  -- `verifiedPublicKey`.
  unfoldable pub verified_public_key : Log → ConnMeta → Permissions → Log × AuthResult
  unfolding account_error_text
  verified_public_key log conn perms = elim (lookup_account d.getent conn.user) [
    | inr err ↦ deny log conn (account_error_text err)
    | inl a ↦ elim (login_allowed a d.nologin) [
      | some err ↦ deny log conn err
      | none ↦ (
        emit log (record (conn_event conn auth_success) {
          principal = get_or (lookup (codes "nokku-principal") perms.extensions) [];
        }),
        accepted (record perms { account = some a }),
      )
    ]
  ]

-- `certExt`: an absent extension means no.
unfoldable pub cert_ext : Permissions → Bytes → Bool
cert_ext perms name = is_some (lookup name perms.extensions)
