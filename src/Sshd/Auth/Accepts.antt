-- ===== src/Sshd/Auth/Accepts.antt =====
-- The certificate check: what an accepted login has proved, and which logins are accepted.
use nokkud.Base.{
  Bool-cases, contains, Bytes, codes, bytes_beq, bytes_beq_iff, Dict, lookup, insert, lookup-insert,
  lookup-insert_self, get_or, ℕ, refl, inl, inr, true, false, none, some, List, [], arith, ◌≡◌, ◌∙◌,
  ◌≢◌, ◌∷◌, nat_eq, bytes_eq,
}
use nokkud.Certificate.{user_cert, Certificate, PublicKey, plain, certificate}
use nokkud.State.Principal.{IsValidName}
use nokkud.State.Cache.{CacheJson, Json, cert_principals}
use nokkud.State.Cache.Laws.{Reach, Reach-IsValidName}
use nokkud.Sshd.Audit.{ConnMeta, auth_failure, conn_event, Log, emit}
use nokkud.Sshd.Trust.{Trust, trusted_ca_wire}
use nokkud.Sshd.Auth.{
  AuthDeps, accepted, refused, Permissions, first_match, permissions_of, deny, public_key_callback,
}

first_match-found :
    (allowed valid : List Bytes)
    → first_match allowed valid ≢ []
    → (contains allowed (first_match allowed valid) ≡ true)
      × (contains valid (first_match allowed valid) ≡ true)
unfolding first_match
first_match-found [] valid h = absurd (h refl)
first_match-found (p ∷ ps) valid h = elim (Bool-cases (contains valid p)) [
  | inl e ↦ ground (arith, bytes_beq_iff p p)
  | inr e ↦ ground (arith, first_match-found ps valid)
]

-- The first principal of the list that the certificate names is not the empty string.
first_match-ne-nil :
    (allowed valid : List Bytes) (p : Bytes)
    → contains allowed p ≡ true
    → contains valid p ≡ true
    → contains allowed [] ≡ false
    → first_match allowed valid ≢ []
unfolding first_match
first_match-ne-nil [] valid p a v n e = cc
first_match-ne-nil (q ∷ ps) valid p a v n e =
    ground (arith, bytes_beq_iff q p, bytes_beq_iff q [], first_match-ne-nil ps valid p)

literals :
    (bytes_beq (codes "nokku-ca") (codes "nokku-principal") ≡ false)
    × (bytes_beq (codes "nokku-cert-key-id") (codes "nokku-principal") ≡ false)
    × (bytes_beq (codes "force-command") (codes "nokku-principal") ≡ false)
    × (bytes_beq (codes "nokku-cert-key-id") (codes "nokku-ca") ≡ false)
    × (bytes_beq (codes "force-command") (codes "nokku-ca") ≡ false)
    × (bytes_beq (codes "force-command") (codes "nokku-cert-key-id") ≡ false)
unfolding codes bytes_beq
literals = (refl, refl, refl, refl, refl, refl)

-- What the session later reads, whatever extensions the certificate itself carries.
pub record IsBound (matched : Bytes) (cert : Certificate) (p : Permissions) : Type 0 where
  pub principal : lookup (codes "nokku-principal") p.extensions ≡ some matched
  pub ca : lookup (codes "nokku-ca") p.extensions ≡ some cert.signature_key
  pub key_id : lookup (codes "nokku-cert-key-id") p.extensions ≡ some cert.key_id

abbrev named : Bytes → Certificate → Dict Bytes Bytes
named matched cert = insert (codes "nokku-cert-key-id") cert.key_id (
    insert (codes "nokku-ca") cert.signature_key
      (insert (codes "nokku-principal") matched cert.extensions))

lookup-permissions_of :
    (matched : Bytes) (cert : Certificate) (k : Bytes)
    → bytes_beq (codes "force-command") k ≡ false
    → lookup k (permissions_of matched cert).extensions ≡ lookup k (named matched cert)
unfolding permissions_of
lookup-permissions_of matched cert k ne =
    let fc : Bytes = get_or (lookup (codes "force-command") cert.critical_options) [] in
    ground (arith, lookup-insert (codes "force-command") k fc (named matched cert))

permissions_of-IsBound :
    (matched : Bytes) (cert : Certificate) → IsBound matched cert (permissions_of matched cert)
unfolding bytes_beq codes
permissions_of-IsBound matched cert = record {
  principal = lookup-permissions_of matched cert _ literals.2 ∙ simp lookup-insert;
  ca = lookup-permissions_of matched cert _ literals.4 ∙ simp lookup-insert;
  key_id =
      lookup-permissions_of matched cert _ literals.5
      ∙ lookup-insert_self (codes "nokku-cert-key-id") cert.key_id _;
}

-- All that the check has established of an accepted login.
pub record IsAuthorized (d : AuthDeps) (allowed : List Bytes) (now : ℕ) (trust : Trust)
    (cert : Certificate) (p : Permissions) : Type 0 where
  pub matched : Bytes
  pub is_user : cert.cert_type ≡ user_cert
  pub is_trusted : trusted_ca_wire now trust cert.signature_key ≡ true
  pub is_named : matched ≢ []
  pub is_allowed : contains allowed matched ≡ true
  pub is_listed : contains cert.valid_principals matched ≡ true
  pub is_checked :
      d.check_cert
        (trusted_ca_wire now trust)
        (codes "force-command" ∷ codes "source-address" ∷ [])
        now
        matched
        cert
      ≡ none
  pub is_bound : IsBound matched cert p

abbrev supported : List Bytes
supported = codes "force-command" ∷ codes "source-address" ∷ []

contains_nil : (l : List Bytes) (m : Bytes) → contains l m ≡ true → l ≢ []
contains_nil [] m h e = cc
contains_nil (x ∷ l) m h e = cc

module _ (d : AuthDeps) (principals : Bytes → List Bytes) (now : ℕ) (trust : Trust) (log : Log)
    (conn : ConnMeta) where
  check_facts :
      (cert : Certificate) (p : Permissions)
      → (public_key_callback d principals now trust log conn (certificate cert)).1 ≡ accepted p
      → let m = first_match (principals conn.user) cert.valid_principals in
        (cert.cert_type ≡ user_cert)
        × (trusted_ca_wire now trust cert.signature_key ≡ true)
        × (m ≢ [])
        × (d.check_cert (trusted_ca_wire now trust) supported now m cert ≡ none)
        × (permissions_of m cert ≡ p)
        × ((public_key_callback d principals now trust log conn (certificate cert)).0 ≡ log)
  unfolding public_key_callback deny
  check_facts cert p h = ground arith

  -- A login is only accepted with a user certificate, signed by a CA that is trusted now, that
  -- names a principal of the requested account's list and passes `CheckCert` for it; the
  -- permissions then hold that principal, the CA and the key id of this certificate, whatever
  -- extensions it came with, and no event is logged.
  pub public_key_callback-IsAuthorized :
      (key : PublicKey) (p : Permissions)
      → (public_key_callback d principals now trust log conn key).1 ≡ accepted p
      → ((cert : Certificate) × (key ≡ certificate cert)
          × IsAuthorized d (principals conn.user) now trust cert p)
        × ((public_key_callback d principals now trust log conn key).0 ≡ log)
  unfolding public_key_callback deny
  public_key_callback-IsAuthorized (plain w) p h = cc
  public_key_callback-IsAuthorized (certificate cert) p h =
      let (user, trusted, ne, checked, perms, same) = check_facts cert p h in
      let m = first_match (principals conn.user) cert.valid_principals in
      let found = first_match-found (principals conn.user) cert.valid_principals ne in
      (
        (
          cert,
          refl,
          record {
            matched = m;
            is_user = user;
            is_trusted = trusted;
            is_named = ne;
            is_allowed = found.0;
            is_listed = found.1;
            is_checked = checked;
            is_bound = rw perms at (permissions_of-IsBound m cert);
          },
        ),
        same,
      )

  -- A user certificate of a trusted CA that shares a principal with the account's list and that
  -- `CheckCert` passes for each principal that it names is accepted, unless the list holds an empty
  -- principal.
  pub public_key_callback_accepts :
      (cert : Certificate) (shared : Bytes)
      → cert.cert_type ≡ user_cert
      → trusted_ca_wire now trust cert.signature_key ≡ true
      → contains (principals conn.user) shared ≡ true
      → contains cert.valid_principals shared ≡ true
      → contains (principals conn.user) [] ≡ false
      → ((m : Bytes)
          → contains cert.valid_principals m ≡ true
          → d.check_cert (trusted_ca_wire now trust) supported now m cert ≡ none)
      → (p : Permissions) × (public_key_callback d principals now trust log conn (certificate cert)
          ≡ (log, accepted p))
  unfolding public_key_callback deny
  public_key_callback_accepts cert shared user trusted allowed valid nonempty checked =
      let m = first_match (principals conn.user) cert.valid_principals in
      let named =
        first_match-ne-nil (principals conn.user) cert.valid_principals shared allowed valid
          nonempty in
      (
        permissions_of m cert,
        ground (
          arith,
          checked m (first_match-found (principals conn.user) cert.valid_principals named).1,
        ),
      )

  -- Whatever is refused leaves exactly one line in the audit log, an `auth_failure` of this
  -- connection with the message of the refusal.
  pub key_refusal_logged :
      (key : PublicKey) (err : Bytes)
      → (public_key_callback d principals now trust log conn key).1 ≡ refused err
      → (public_key_callback d principals now trust log conn key).0
        ≡ emit log (record (conn_event conn auth_failure) { error = err })
  unfolding public_key_callback deny
  key_refusal_logged (plain w) err h = ground arith
  key_refusal_logged (certificate cert) err h = ground arith

-- With the access list of the cache, only a name that principal.go accepts can log in: nothing
-- else reaches `getent` and the shell.
pub public_key_callback-IsValidName :
    {json : Json} {cache : CacheJson} (d : AuthDeps) (now : ℕ) (trust : Trust) (log : Log)
    (conn : ConnMeta) (key : PublicKey) (p : Permissions)
    → Reach json cache
    → (public_key_callback d (cert_principals cache) now trust log conn key).1 ≡ accepted p
    → IsValidName conn.user
public_key_callback-IsValidName {cache} d now trust log conn key p r h =
    let a =
      (public_key_callback-IsAuthorized d (cert_principals cache) now trust log conn key p h).0.2 in
    Reach-IsValidName r conn.user
      (λ e. contains_nil (cert_principals cache conn.user) a.matched a.is_allowed e)
