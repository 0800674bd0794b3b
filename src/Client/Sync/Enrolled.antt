-- ===== src/Client/Sync/Enrolled.antt =====
-- What an enrollment keeps of the one before it.
use mathlib.Core.Path.{subst}
use nokkud.Base.{
  is_empty, Bytes, lookup, refl, sym, inl, inr, Bool, true, false, Option, none, some, [], arith,
  ◌≡◌, ◌⊎◌, ◌||◌, nat_eq, bytes_eq,
}
use nokkud.State.Cache.{CacheJson, DaemonConfig, cert_principals, clear, set_daemon_config}
use nokkud.Client.Sync.{
  Client, Config, EnrollResponse, Removal, enroll, incomplete, not_exist, remove_failed, removed,
  take_enrollment,
}

-- A cache that lets nobody in: no CA, active or retired, and no principals.
abbrev pub IsClean : CacheJson → Type 0
IsClean c = (c.ca ≡ []) × ((c.retired_cas ≡ []) × ((u : Bytes) → cert_principals c u ≡ []))

clean : (c : CacheJson) → IsClean (clear c)
unfolding clear cert_principals lookup
clean c = (refl, (refl, λ u. refl))

set_daemon_config-IsClean :
    (o : Option DaemonConfig) (c : CacheJson) → IsClean (set_daemon_config o (clear c))
unfolding set_daemon_config clear cert_principals lookup
set_daemon_config-IsClean o c = (refl, (refl, λ u. refl))

take_enrollment-IsClean :
    (cs ds : Bool) (res : EnrollResponse) (c : Client)
    → IsClean (take_enrollment cs ds res (record c { cache = clear c.cache })).0.cache
unfolding take_enrollment
take_enrollment-IsClean true ds res c = set_daemon_config-IsClean res.config c.cache
take_enrollment-IsClean false ds res c = set_daemon_config-IsClean res.config c.cache

module _ (cs ds : Bool) (answer : Removal) (res : EnrollResponse) (c : Client) where
  -- An answer of the backend either misses an id or the token, and then changes nothing, or leaves
  -- a cache that lets nobody in, whatever fails afterwards.
  pub enroll-IsClean :
      let (d, e) = enroll cs ds answer (some res) c in
      ((d ≡ c) × (e ≡ some incomplete)) ⊎ IsClean d.cache
  unfolding enroll
  enroll-IsClean =
      go (is_empty res.target_id || (is_empty res.id || is_empty res.access_token)) answer refl
    where
      go :
          (b : Bool) (a : Removal)
          → (is_empty res.target_id || (is_empty res.id || is_empty res.access_token)) ≡ b
          → let (d, e) = enroll cs ds a (some res) c in
            ((d ≡ c) × (e ≡ some incomplete)) ⊎ IsClean d.cache
      go true a e = inl (ground arith, ground arith)
      go false remove_failed e = inr (rw e (clean c.cache))
      go false removed e = inr (rw e (take_enrollment-IsClean cs ds res c))
      go false not_exist e = inr (rw e (take_enrollment-IsClean cs ds res c))

-- The config and the files after a successful enrollment.
abbrev pub IsTaken : EnrollResponse → Config → Client → Type 0
IsTaken res old d =
    (d.config ≡ record old {
      target_id = res.target_id;
      daemon_id = res.id;
      session_token = res.access_token;
    })
    × ((d.saved_config ≡ some d.config) × ((d.saved_cache ≡ some d.cache) × (d.host_cert ≡ none)))

take_enrollment-IsTaken :
    (cs ds : Bool) (res : EnrollResponse) (c : Client)
    → (take_enrollment cs ds res c).1 ≡ none
    → IsTaken res c.config (take_enrollment cs ds res c).0
unfolding take_enrollment
take_enrollment-IsTaken true true res c h = (refl, (refl, (refl, refl)))
take_enrollment-IsTaken true false res c h = ground arith
take_enrollment-IsTaken false ds res c h = ground arith

-- An enrollment that succeeds has a target, an id and a token; they are in memory and on disk, the
-- address of the backend and its CA are kept, and no host certificate is left.
pub enroll-IsTaken :
    (cs ds : Bool) (answer : Removal) (res : EnrollResponse) (c : Client)
    → (enroll cs ds answer (some res) c).1 ≡ none
    → ((is_empty res.target_id || (is_empty res.id || is_empty res.access_token)) ≡ false)
      × IsTaken res c.config (enroll cs ds answer (some res) c).0
unfolding enroll
enroll-IsTaken cs ds answer res c h =
    go (is_empty res.target_id || (is_empty res.id || is_empty res.access_token)) answer refl h
  where
    d : Client
    d = record c { cache = clear c.cache }

    taken :
        (a : Removal)
        → enroll cs ds a (some res) c ≡ take_enrollment cs ds res d
        → (enroll cs ds a (some res) c).1 ≡ none
        → IsTaken res c.config (enroll cs ds a (some res) c).0
    taken a q =
        subst (λ r. r.1 ≡ none → IsTaken res c.config r.0) (sym q)
          (take_enrollment-IsTaken cs ds res d)

    go :
        (b : Bool) (a : Removal)
        → (is_empty res.target_id || (is_empty res.id || is_empty res.access_token)) ≡ b
        → (enroll cs ds a (some res) c).1 ≡ none
        → ((is_empty res.target_id || (is_empty res.id || is_empty res.access_token)) ≡ false)
          × IsTaken res c.config (enroll cs ds a (some res) c).0
    go true a e h = ground arith
    go false remove_failed e h = ground arith
    go false removed e h = (e, taken removed (ground arith) h)
    go false not_exist e h = (e, taken not_exist (ground arith) h)
