-- ===== src/Client/Sync/Applied.antt =====
-- What an applied answer of the backend leaves open.
use mathlib.Core.Path.{subst}
use nokkud.Base.{
  is_empty, Option-cases, all, Bytes, Dict, lookup, insert, lookup-insert, get_or, ℕ, refl, sym,
  inl, inr, Bool, true, false, not, Option, none, some, List, [], arith, ◌≡◌, ◌≢◌, ◌⊎◌, ◌&&◌, ◌||◌,
  ◌∷◌, ◌==◌, if◌then◌else◌, nat_eq, bytes_eq,
}
use nokkud.Sshd.Trust.Exact.{set_trust_exact, set_trust_unreadable, is_wire, is_before, last_until}
use nokkud.State.Cache.{replace, CacheJson, valid_principals}
use nokkud.State.Principal.{validate_principal}
use nokkud.State.Cache.Laws.{lookup-valid_principals}
use nokkud.Client.Sync.{collect}
use nokkud.Sshd.Trust.{trusted_ca_wire, Trust, set_trust}
use nokkud.State.Cache.{cert_principals}
use nokkud.Sshd.Policy.{policy_from}
use nokkud.Sshd.Live.{ServerConn, drop_revoked, examine, still_permitted}
use nokkud.Client.Sync.{
  Client, SyncResponse, DaemonStatus, apply, rejected, sync_daemon, unspecified, accepted, other,
  pending, save_cache,
}

-- The two statuses whose answers are not applied.
abbrev pub is_applied : DaemonStatus → Bool
is_applied rejected = false
is_applied unspecified = false
is_applied _ = true

abbrev pub settled : ℕ → Client → ServerConn → Bool
settled now c conn = conn.closed || still_permitted (cert_principals c.cache) now c.trust conn

drop_revoked_settled :
    (principals : Bytes → List Bytes) (now : ℕ) (trust : Trust) (live : List ServerConn)
    → all
        (λ conn. conn.closed || still_permitted principals now trust conn)
        (drop_revoked principals now trust live)
      ≡ true
unfolding drop_revoked examine still_permitted
drop_revoked_settled principals now trust [] = refl
drop_revoked_settled principals now trust (conn ∷ live) =
    ground (arith, drop_revoked_settled principals now trust live)

-- The last entry of a name in an answer.
abbrev pub last_for : Bytes → List (Bytes × List Bytes) → Option (List Bytes)
last_for u [] = none
last_for u ((name, uuids) ∷ ps) = elim (last_for u ps) [
  | some l ↦ some l
  | none ↦ if name == u then some uuids else none
]

-- The principals that an answer gives a name: those of its last entry, if the name is valid.
abbrev pub answered : Bytes → List (Bytes × List Bytes) → List Bytes
answered u ps = if validate_principal u then get_or (last_for u ps) [] else []

lookup-collect :
    (u : Bytes) (ps : List (Bytes × List Bytes)) (m : Dict Bytes (List Bytes))
    → lookup u (collect ps m) ≡ elim (last_for u ps) [ none ↦ lookup u m | some l ↦ some l ]
unfolding collect
lookup-collect u [] m = refl
lookup-collect u ((name, uuids) ∷ ps) m =
    ground (arith, lookup-collect u ps (insert name uuids m), lookup-insert name u uuids m)

cert_principals-replace :
    (res : SyncResponse) (cache : CacheJson) (u : Bytes)
    → cert_principals
        (replace
          (collect res.principals [])
          res.config
          res.ca_public_key
          res.retired_ca_keys
          res.state_version
          cache)
        u
      ≡ answered u res.principals
unfolding replace cert_principals lookup
cert_principals-replace res cache u = elim (Option-cases (last_for u res.principals)) [
  | inl e ↦ ground (arith, known, rw (e) at collected)
  | inr (l, e) ↦ ground (arith, known, rw (e) at collected)
]
  where
    known :
        lookup u (valid_principals (collect res.principals []))
        ≡ (if validate_principal u then lookup u (collect res.principals []) else none)
    known = lookup-valid_principals u (collect res.principals [])

    collected :
        lookup u (collect res.principals [])
        ≡ elim (last_for u res.principals) [ none ↦ none | some l ↦ some l ]
    collected = lookup-collect u res.principals []

-- The trust that an answer leaves: the former one where its active key is not empty and cannot be
-- read; else exactly the active key and the retired ones whose time is not over are trusted.
abbrev pub IsTrustOf : (Bytes → Option Bytes) → SyncResponse → Trust → Trust → Type 0
IsTrustOf parse res old new =
    ((res.ca_public_key ≢ []) × ((parse res.ca_public_key ≡ none) × (new ≡ old)))
    ⊎ ((now : ℕ) (wire : Bytes)
        → trusted_ca_wire now new wire ≡ (
            (not (is_empty res.ca_public_key) && is_wire parse wire (parse res.ca_public_key))
            || is_before parse wire now (last_until parse wire res.retired_ca_keys)))

set_trust-IsTrustOf :
    (parse : Bytes → Option Bytes) (res : SyncResponse) (old : Trust)
    → IsTrustOf parse res old (set_trust parse res.ca_public_key res.retired_ca_keys old)
set_trust-IsTrustOf parse res old = go res.ca_public_key refl
  where
    go :
        (key : Bytes)
        → res.ca_public_key ≡ key
        → IsTrustOf parse res old (set_trust parse res.ca_public_key res.retired_ca_keys old)
    go [] e = inr (λ now wire.
        set_trust_exact parse wire res.ca_public_key res.retired_ca_keys old now (inl e))
    go (c ∷ cs) e = elim (Option-cases (parse res.ca_public_key)) [
      | inl d ↦ inl (
        filled,
        (d, set_trust_unreadable parse [] res.ca_public_key res.retired_ca_keys old filled d),
      )
      | inr (w, d) ↦ inr (λ now wire.
          set_trust_exact parse wire res.ca_public_key res.retired_ca_keys old now
            (inr (λ z. absurd (ground (arith, d, z)))))
    ]
      where
        filled : res.ca_public_key ≢ []
        filled = ground arith

abbrev pub is_open : ServerConn → Bool
is_open conn = not conn.closed

-- The connections that a permission test leaves as they are, in order.
drop_revoked_kept :
    (principals : Bytes → List Bytes) (now : ℕ) (trust : Trust) (live : List ServerConn)
    → all (still_permitted principals now trust) live ≡ true
    → drop_revoked principals now trust live ≡ live
unfolding drop_revoked examine
drop_revoked_kept principals now trust [] h = refl
drop_revoked_kept principals now trust (conn ∷ live) h =
    ground (arith, drop_revoked_kept principals now trust live)

module _ (parse : Bytes → Option Bytes) (now : ℕ) (cache_saves config_saves : Bool)
    (res : SyncResponse) (c : Client) where
  abbrev pub applied : Client
  applied = (sync_daemon parse now cache_saves config_saves (some res) c).0

  pub sync_daemon_applied :
      is_applied res.status ≡ true → applied ≡ save_cache cache_saves (apply parse now res c)
  unfolding sync_daemon
  sync_daemon_applied h = go res.status refl h
    where
      go :
          (st : DaemonStatus)
          → res.status ≡ st
          → is_applied st ≡ true
          → applied ≡ save_cache cache_saves (apply parse now res c)
      go unspecified e h = ground arith
      go pending e h = ground arith
      go accepted e h = ground arith
      go rejected e h = ground arith
      go (other n) e h = ground arith

  -- After an answer that is neither a rejection nor of unspecified status, also where saving it
  -- fails: a name has the principals of its last entry in the answer, or none if the name is not
  -- valid; trusted are exactly the answer's active CA and its retired ones whose time is not over,
  -- or, if its active key is not empty and cannot be read, the CAs of before; the policy is that of
  -- the answer; and every connection that is still open has its principal in the new list for its
  -- user and a CA that is trusted now.
  pub sync_daemon-settled :
      is_applied res.status ≡ true
      → let d = (sync_daemon parse now cache_saves config_saves (some res) c).0 in
        ((u : Bytes) → cert_principals d.cache u ≡ answered u res.principals)
        × (IsTrustOf parse res c.trust d.trust
            × ((d.policy ≡ policy_from res.config) × (all (settled now d) d.live ≡ true)))
  unfolding apply
  sync_daemon-settled h =
      subst
        (λ d.
          ((u : Bytes) → cert_principals d.cache u ≡ answered u res.principals)
          × (IsTrustOf parse res c.trust d.trust
              × ((d.policy ≡ policy_from res.config) × (all (settled now d) d.live ≡ true))))
        (sym (sync_daemon_applied h))
        (
          cert_principals-replace res c.cache,
          (
            set_trust-IsTrustOf parse res c.trust,
            (
              refl,
              drop_revoked_settled (cert_principals (apply parse now res c).cache) now
                  (apply parse now res c).trust c.live,
            ),
          ),
        )

  -- Such an answer closes nothing where every connection is still permitted under it.
  pub sync_daemon_kept :
      is_applied res.status ≡ true
      → let d = (sync_daemon parse now cache_saves config_saves (some res) c).0 in
        all (still_permitted (cert_principals d.cache) now d.trust) c.live ≡ true → d.live ≡ c.live
  unfolding apply
  sync_daemon_kept h =
      subst
        (λ d.
          all (still_permitted (cert_principals d.cache) now d.trust) c.live ≡ true
          → d.live ≡ c.live)
        (sym (sync_daemon_applied h))
        (drop_revoked_kept (cert_principals (apply parse now res c).cache) now
          (apply parse now res c).trust c.live)
