-- ===== src/Sshd/Auth/Verified.antt =====
-- The account check behind the certificate check.
use nokkud.Base.{
  is_empty, Option-cases, Bytes, codes, bytes_beq_iff, lookup, get_or, ℕ, refl, inl, inr, Option,
  none, some, List, [], arith, ◌^◌, ◌<◌, ◌≡◌, ◌⊎◌, ◌∷◌, if◌then◌else◌, nat_eq, bytes_eq,
}
use nokkud.Sshd.Auth.{AuthDeps, Permissions, accepted, deny, refused, verified_public_key}
use nokkud.Sshd.Audit.{ConnMeta, Log, auth_failure, auth_success, conn_event, emit}
use nokkud.Sshd.Account.{
  Account, AccountError, split, parse_uint32, trim_space, account_of, login_allowed, lookup_account,
}

-- The passwd entry of an account.
pub record IsEntry (getent : Bytes → Option Bytes) (name : Bytes) (a : Account) : Type 0 where
  pub out : Bytes
  pub password : Bytes
  pub uid_text : Bytes
  pub gid_text : Bytes
  pub comment : Bytes
  pub shell_text : Bytes
  pub answered : getent name ≡ some out
  pub fields :
      split b':' (trim_space out)
      ≡ name ∷ password ∷ uid_text ∷ gid_text ∷ comment ∷ a.home ∷ shell_text ∷ []
  pub same_name : a.name ≡ name
  pub uid : parse_uint32 uid_text ≡ some a.uid
  pub gid : parse_uint32 gid_text ≡ some a.gid
  pub shell : a.shell ≡ (if is_empty shell_text then codes "/bin/sh" else shell_text)

parse_uint32-lt : (s : Bytes) (n : ℕ) → parse_uint32 s ≡ some n → n < 2 ^ 32
unfolding parse_uint32
parse_uint32-lt [] n h = cc
parse_uint32-lt (c ∷ cs) n h = ground arith

account_of-IsEntry :
    (getent : Bytes → Option Bytes) (name out : Bytes) (fields : List Bytes) (a : Account)
    → getent name ≡ some out
    → split b':' (trim_space out) ≡ fields
    → account_of name fields ≡ inl a
    → IsEntry getent name a
unfolding account_of
account_of-IsEntry getent name out (n ∷ pw ∷ u ∷ g ∷ c ∷ h ∷ s ∷ []) a e f r = record {
  out = out;
  password = pw;
  uid_text = u;
  gid_text = g;
  comment = c;
  shell_text = s;
  answered = e;
  fields = ground (arith, bytes_beq_iff n name);
  same_name = ground arith;
  uid = ground arith;
  gid = ground arith;
  shell = ground arith;
}
account_of-IsEntry getent name out _ a e f r = cc

lookup_account-IsEntry :
    (getent : Bytes → Option Bytes) (name : Bytes) (a : Account)
    → lookup_account getent name ≡ inl a
    → IsEntry getent name a
unfolding lookup_account
lookup_account-IsEntry getent name a h = elim (Option-cases (getent name)) [
  | inl e ↦ ground arith
  | inr (out, e) ↦
      account_of-IsEntry getent name out (split b':' (trim_space out)) a e refl (ground arith)
]

module _ (d : AuthDeps) (log : Log) (conn : ConnMeta) (perms : Permissions) where
  -- What an accepted login of this connection is.
  abbrev pub Verified : Permissions → Type 0
  Verified p =
      (a : Account) × (p ≡ record perms { account = some a })
      × IsEntry d.getent conn.user a
      × (a.uid < 2 ^ 32)
      × (a.gid < 2 ^ 32)
      × ((a.uid ≡ 0) ⊎ (d.nologin ≡ none))
      × ((verified_public_key d log conn perms).0
          ≡ emit log (record (conn_event conn auth_success) {
            principal = get_or (lookup (codes "nokku-principal") perms.extensions) [];
          }))

  accepted_parts :
      (p : Permissions) (r : Account ⊎ AccountError)
      → lookup_account d.getent conn.user ≡ r
      → (verified_public_key d log conn perms).1 ≡ accepted p
      → Verified p
  unfolding verified_public_key deny login_allowed
  accepted_parts p (inr err) e h = ground arith
  accepted_parts p (inl a) e h =
      let entry = lookup_account-IsEntry d.getent conn.user a e in
      (
        a,
        ground arith,
        entry,
        parse_uint32-lt entry.uid_text a.uid entry.uid,
        parse_uint32-lt entry.gid_text a.gid entry.gid,
        ground arith,
        ground arith,
      )

  -- An accepted login runs as the account of a passwd entry whose name is the one asked for, with
  -- the ids of that entry as 32-bit numbers; while a nologin file exists it is root. The
  -- permissions are otherwise unchanged and one `auth_success` is logged.
  pub verified_public_key-IsEntry :
      (p : Permissions) → (verified_public_key d log conn perms).1 ≡ accepted p → Verified p
  verified_public_key-IsEntry p h = accepted_parts p (lookup_account d.getent conn.user) refl h

  -- A refusal leaves exactly one line, an `auth_failure` with the message.
  pub login_refusal_logged :
      (err : Bytes)
      → (verified_public_key d log conn perms).1 ≡ refused err
      → (verified_public_key d log conn perms).0
        ≡ emit log (record (conn_event conn auth_failure) { error = err })
  unfolding verified_public_key deny
  login_refusal_logged err h = ground arith
