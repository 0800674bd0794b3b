-- ===== src/Client/Sync/Refused.antt =====
-- Answers of the backend that take everything back.
use mathlib.Core.Path.{subst}
use nokkud.Base.{
  all, Bytes, lookup, ℕ, refl, sym, inl, inr, Bool, true, false, Option, none, some, List, [],
  arith, ◌≡◌, ◌⊎◌, ◌∷◌, nat_eq, bytes_eq,
}
use nokkud.State.Cache.{CacheJson, cert_principals, clear, new_cache, replace, valid_principals}
use nokkud.Sshd.Trust.{Trust}
use nokkud.Sshd.Live.{ServerConn, drop_revoked, examine, still_permitted}
use nokkud.Client.Sync.{
  Client, SyncResponse, DaemonStatus, accepted, apply, collect, daemon_rejected, forget, other,
  pending, rejected, sync_daemon, unspecified,
}
use nokkud.Client.Sync.Applied.{is_applied, sync_daemon_applied}

closes_all :
    (principals : Bytes → List Bytes) (now : ℕ) (trust : Trust) (live : List ServerConn)
    → ((u : Bytes) → principals u ≡ [])
    → all (λ conn. conn.closed) (drop_revoked principals now trust live) ≡ true
unfolding drop_revoked examine still_permitted
closes_all principals now trust [] h = refl
closes_all principals now trust (conn ∷ live) h =
    ground (arith, h conn.user, closes_all principals now trust live h)

cert_principals_none :
    (res : SyncResponse) (c : CacheJson) (u : Bytes)
    → res.principals ≡ []
    → cert_principals
        (replace
          (collect res.principals [])
          res.config
          res.ca_public_key
          res.retired_ca_keys
          res.state_version
          c)
        u
      ≡ []
unfolding cert_principals replace collect valid_principals lookup
cert_principals_none res c u h = ground arith

-- An answer without principals, as a pending one is, closes every connection, and no name has a
-- principal left to log in with.
pub sync_daemon_closes :
    (parse : Bytes → Option Bytes) (now : ℕ) (cache_saves config_saves : Bool) (res : SyncResponse)
    (c : Client)
    → is_applied res.status ≡ true
    → res.principals ≡ []
    → let d = (sync_daemon parse now cache_saves config_saves (some res) c).0 in
      (all (λ conn. conn.closed) d.live ≡ true) × ((u : Bytes) → cert_principals d.cache u ≡ [])
unfolding apply
sync_daemon_closes parse now cache_saves config_saves res c h n =
    let p = λ (u : Bytes). cert_principals_none res c.cache u n in
    subst
      (λ d.
        (all (λ conn. conn.closed) d.live ≡ true) × ((u : Bytes) → cert_principals d.cache u ≡ []))
      (sym (sync_daemon_applied parse now cache_saves config_saves res c h))
      (closes_all _ now (apply parse now res c).trust c.live p, p)

-- A call that fails and an answer of unspecified status change nothing, so that logins go on from
-- the cache. A rejection leaves a cache in which no name has a principal and no CA, and, where the
-- file system saves them, the same on disk, with a config that keeps the address of the backend and
-- its CA and neither the ids nor the session token.
pub sync_daemon_not_applied :
    (parse : Bytes → Option Bytes) (now : ℕ) (res : SyncResponse) (c : Client)
    → is_applied res.status ≡ false
    → (res.status ≡ unspecified × (sync_daemon parse now true true (some res) c ≡ (c, none)))
      ⊎ (res.status ≡ rejected
          × (let (d, e) = sync_daemon parse now true true (some res) c in
              (e ≡ some daemon_rejected)
              × (((u : Bytes) → cert_principals d.cache u ≡ [])
                  × ((d.saved_cache ≡ some new_cache)
                      × (d.saved_config
                          ≡ some (record c.config {
                            target_id = [];
                            daemon_id = [];
                            session_token = [];
                          }))))))
unfolding sync_daemon forget clear new_cache cert_principals lookup
sync_daemon_not_applied parse now res c h = go res.status refl h
  where
    go :
        (st : DaemonStatus)
        → res.status ≡ st
        → is_applied st ≡ false
        → (res.status ≡ unspecified × (sync_daemon parse now true true (some res) c ≡ (c, none)))
          ⊎ (res.status ≡ rejected
              × (let (d, e) = sync_daemon parse now true true (some res) c in
                  (e ≡ some daemon_rejected)
                  × (((u : Bytes) → cert_principals d.cache u ≡ [])
                      × ((d.saved_cache ≡ some new_cache)
                          × (d.saved_config
                              ≡ some (record c.config {
                                target_id = [];
                                daemon_id = [];
                                session_token = [];
                              }))))))
    go unspecified e h = inl (e, ground arith)
    go rejected e h = inr (e, rw e (refl, (λ u. refl, (refl, refl))))
    go pending e h = ground arith
    go accepted e h = ground arith
    go (other n) e h = ground arith
