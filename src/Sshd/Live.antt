-- ===== src/Sshd/Live.antt =====
-- internal/sshd/server.go: the open connections, and their closing when access is revoked.
pub mod Revoke
mod Tests
use nokkud.Base.{
  contains, Bytes, codes, lookup, get_or, ℕ, Bool, true, List, [], ◌&&◌, ◌∷◌, if◌then◌else◌, nat_eq,
  bytes_eq,
}
use nokkud.Sshd.Auth.{Permissions}
use nokkud.Sshd.Trust.{Trust, trusted_ca_wire}

-- `*ssh.ServerConn`, with what the daemon does to it: `closed` is set by `Close`.
pub record ServerConn : Type 0 where
  pub user : Bytes
  pub permissions : Permissions
  pub closed : Bool

-- `ext[key]`.
ext_value : ServerConn → Bytes → Bytes
ext_value conn key = get_or (lookup key conn.permissions.extensions) []

-- The test of `DropRevoked` on one connection; `principals` is the server's callback.
unfoldable pub still_permitted : (Bytes → List Bytes) → ℕ → Trust → ServerConn → Bool
unfolding ext_value
still_permitted principals now trust conn =
    contains (principals conn.user) (ext_value conn (codes "nokku-principal"))
    && trusted_ca_wire now trust (ext_value conn (codes "nokku-ca"))

-- The body of the loop of `DropRevoked`.
unfoldable pub examine : (Bytes → List Bytes) → ℕ → Trust → ServerConn → ServerConn
examine principals now trust conn =
    if still_permitted principals now trust conn then conn else record conn { closed = true }

-- `DropRevoked` with nothing else running.
unfoldable pub drop_revoked : (Bytes → List Bytes) → ℕ → Trust → List ServerConn → List ServerConn
drop_revoked principals now trust [] = []
drop_revoked principals now trust (conn ∷ live) =
    examine principals now trust conn ∷ drop_revoked principals now trust live
