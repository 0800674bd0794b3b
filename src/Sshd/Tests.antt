-- ===== src/Sshd/Tests.antt =====
-- Runs of the login path, the trust and the open connections, and their theorems at concrete inputs.
use nokkud.State.Cache.Laws.{Reach, start, next, replaces}
use nokkud.Base.{
  ltb, contains, Bytes, codes, bytes_beq, lookup, insert, pos, refl, inr, not, Option, none, some,
  List, [], ◌≡◌, ◌||◌, ◌∷◌, if◌then◌else◌, nat_eq, bytes_eq,
}
use nokkud.Sshd.Trust.Exact.{is_before, last_until, set_trust_exact}
use nokkud.Sshd.Auth.Verified.{Verified, verified_public_key-IsEntry}
use nokkud.State.Cache.{valid_principals}
use nokkud.State.Cache.{CacheJson, Json, RetiredCaKey, cert_principals, new_cache, replace}
use nokkud.State.Principal.{IsValidName, validate_principal}
use nokkud.Sshd.Account.{
  Account, account_of, login_allowed, lookup_account, parse_uint32, split, trim_space,
}
use nokkud.Sshd.Audit.{ConnMeta}
use nokkud.Sshd.Trust.{Trust, trusted_ca_wire, no_trust, set_trust}
use nokkud.Certificate.{Certificate, certificate, user_cert}
use nokkud.Sshd.Auth.{
  AuthDeps, Permissions, accepted, deny, first_match, permissions_of, public_key_callback,
  verified_public_key,
}
use nokkud.Sshd.Auth.Accepts.{
  IsAuthorized, public_key_callback-IsAuthorized, public_key_callback_accepts,
  public_key_callback-IsValidName,
}

abbrev ca : Bytes
ca = codes "ca-wire"

abbrev cert : Certificate
cert = record {
  wire = codes "cert";
  key = codes "key";
  cert_type = user_cert;
  key_id = codes "id-1";
  valid_principals = codes "p2" ∷ codes "p1" ∷ [];
  valid_after = 0;
  valid_before = 100;
  critical_options = [];
  extensions = (codes "permit-pty", []) ∷ [];
  signature_key = ca;
}

abbrev trust : Trust
trust = record { trusted_cas = (ca, tt) ∷ []; retired_cas = [] }

abbrev access : Bytes → List Bytes
access user = codes "p1" ∷ []

-- A checker that refuses a principal that the certificate does not name and a certificate from its
-- end of validity on, and a host with one user.
abbrev deps : AuthDeps
deps = record {
  check_cert = λ trusted supported now principal c.
      if not (contains c.valid_principals principal)
      then some (codes "principal")
      else if ltb now c.valid_before
      then none
      else some (codes "expired");
  quote = λ s. s;
  decimal = λ n. codes "n";
  getent = λ name. some (codes "ann:x:1000:1000::/home/ann:");
  nologin = none;
}

abbrev conn : ConnMeta
conn = record {
  user = codes "ann";
  remote_addr = codes "192.0.2.1:4000";
  local_addr = codes "192.0.2.2:22";
  client_version = codes "SSH-2.0-test";
}

abbrev perms : Permissions
perms = permissions_of (codes "p1") cert

abbrev expired : Certificate
expired = record cert { valid_before = 1 }

public_key_callback-IsAuthorized_example :
    ((c : Certificate) × (certificate cert ≡ certificate c)
      × IsAuthorized deps (access (codes "ann")) 5 trust c perms)
    × ((public_key_callback deps access 5 trust [] conn (certificate cert)).0 ≡ [])
unfolding public_key_callback deny first_match trusted_ca_wire lookup codes bytes_beq
public_key_callback-IsAuthorized_example =
    public_key_callback-IsAuthorized deps access 5 trust [] conn (certificate cert) perms refl

public_key_callback_accepts_example :
    (p : Permissions) × (public_key_callback deps access 5 trust [] conn (certificate cert)
      ≡ ([], accepted p))
unfolding trusted_ca_wire lookup codes bytes_beq
public_key_callback_accepts_example =
    public_key_callback_accepts deps access 5 trust [] conn cert (codes "p1") refl refl refl refl
      refl (λ m h. rw (h) refl)

abbrev json : Json
json = record { marshal = λ c. []; unmarshal = λ text. none }

abbrev cache : CacheJson
cache = replace ((codes "ann", codes "p1" ∷ []) ∷ []) none ca [] (pos 3) new_cache

cache-Reach : Reach json cache
cache-Reach = next start (replaces ((codes "ann", codes "p1" ∷ []) ∷ []) none ca [] (pos 3))

public_key_callback-IsValidName_example : IsValidName (codes "ann")
unfolding public_key_callback deny first_match trusted_ca_wire lookup codes bytes_beq replace
    cert_principals valid_principals validate_principal insert new_cache
public_key_callback-IsValidName_example =
    public_key_callback-IsValidName deps 5 trust [] conn (certificate cert) perms cache-Reach refl

ann : Account
unfolding codes
ann = record {
  name = codes "ann";
  uid = 1000;
  gid = 1000;
  home = codes "/home/ann";
  shell = codes "/bin/sh";
}

verified_public_key-IsEntry_example :
    Verified deps [] conn perms (record perms { account = some ann })
unfolding ann verified_public_key lookup_account account_of trim_space split parse_uint32
    login_allowed codes bytes_beq
verified_public_key-IsEntry_example =
    verified_public_key-IsEntry deps [] conn perms (record perms { account = some ann }) refl

abbrev closed_host : AuthDeps
closed_host = record deps { nologin = some (codes "maintenance") }

-- A backend that retires one key and activates another.
abbrev parse : Bytes → Option Bytes
parse text = some text

abbrev retired : List RetiredCaKey
retired = record { public_key = ca; trusted_until = 9 } ∷ []

set_trust_exact_example :
    trusted_ca_wire 5 (set_trust parse (codes "new") retired no_trust) ca
    ≡ (bytes_beq (codes "new") ca || is_before parse ca 5 (last_until parse ca retired))
unfolding codes
set_trust_exact_example = set_trust_exact parse ca (codes "new") retired no_trust 5 (inr (λ e. cc))
