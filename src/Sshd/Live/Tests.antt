-- ===== src/Sshd/Live/Tests.antt =====
-- A login that a sync takes back, and the theorem about it.
use nokkud.Base.{
  all, Bytes, codes, bytes_beq, lookup, insert, pos, refl, Bool, true, false, Option, none, some,
  [], ◌≡◌, ◌∷◌, nat_eq, bytes_eq,
}
use nokkud.State.Principal.{validate_principal}
use nokkud.Sshd.Trust.{Trust, trusted_ca_wire}
use nokkud.State.Cache.{CacheJson, new_cache, replace, cert_principals, valid_principals}
use nokkud.Sshd.Auth.{Permissions}
use nokkud.Sshd.Live.{ServerConn, examine, still_permitted}
use nokkud.Sshd.Live.Revoke.{
  Entry, World, Reach, start, next, replaces, registers, conn_drops, sync_drops, examines,
  drop_ends, idle, open_allowed, revoked_connections_close,
}

abbrev ca : Bytes
ca = codes "ca-wire"

abbrev perms : Permissions
perms = record {
  critical_options = [];
  extensions = (codes "nokku-principal", codes "p1") ∷ (codes "nokku-ca", ca) ∷ [];
  account = none;
}

abbrev parse : Bytes → Option Bytes
parse text = some text

abbrev cache : CacheJson
cache = replace ((codes "ann", codes "p1" ∷ []) ∷ []) none ca [] (pos 3) new_cache

abbrev trust : Trust
trust = record { trusted_cas = (ca, tt) ∷ []; retired_cas = [] }

-- A login, then a sync that takes the principal back.
abbrev entry : Bool → Bool → Entry
entry closed unchecked = record {
  conn = record { user = codes "ann"; permissions = perms; closed = closed };
  unchecked = unchecked;
}

abbrev revoked : World
revoked = record {
  cache = replace [] none ca [] (pos 4) cache;
  trust = trust;
  live = idle (entry true false ∷ []);
  owed = false;
}

abbrev conn_of : Bool → ServerConn
conn_of closed = (entry closed false).conn

-- The login of `ann` and the check that follows it.
abbrev logged_in : World
logged_in = record {
  cache = cache;
  trust = trust;
  live = idle (entry false false ∷ []);
  owed = false;
}

logged_in-Reach : Reach parse cache trust logged_in
unfolding examine still_permitted trusted_ca_wire cert_principals replace valid_principals
    validate_principal lookup insert codes bytes_beq
logged_in-Reach =
    next
      (next
        (next (next start (registers (conn_of false) [] refl refl))
          (conn_drops [] [] (conn_of false) refl refl))
        (examines 5 [] (entry false false) [] refl refl))
      (drop_ends (entry false false ∷ []) refl refl)

revoked-Reach : Reach parse cache trust revoked
unfolding examine still_permitted trusted_ca_wire cert_principals replace valid_principals
    validate_principal lookup insert codes bytes_beq
revoked-Reach =
    next
      (next
        (next (next logged_in-Reach (replaces [] none ca [] (pos 4) refl))
          (sync_drops (entry false false ∷ []) refl refl))
        (examines 7 [] (entry false false) [] refl refl))
      (drop_ends (entry true false ∷ []) refl refl)

revoked_connections_close_example :
    all (open_allowed revoked.cache revoked.trust) (entry true false ∷ []) ≡ true
revoked_connections_close_example =
    revoked_connections_close (entry true false ∷ []) revoked-Reach refl refl refl
