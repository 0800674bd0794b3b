-- ===== src/State/Cache/Laws.antt =====
-- What the cache hands to the login check.
use nokkud.Base.{
  Option-cases, Bytes, bytes_beq_iff, Dict, lookup, lookup-insert, ℤ, refl, inl, inr, true, Option,
  none, some, List, [], arith, ◌≡◌, ◌≢◌, ◌∷◌, if◌then◌else◌, nat_eq, bytes_eq,
}
use nokkud.State.Principal.{validate_principal, IsValidName}
use nokkud.State.Cache.{
  CacheJson, DaemonConfig, RetiredCaKey, Json, new_cache, cert_principals, set_daemon_config,
  valid_principals, replace, clear, marshal_json, unmarshal_json,
}

-- Filtering keeps exactly the entries of valid names.
pub lookup-valid_principals :
    (u : Bytes) (m : Dict Bytes (List Bytes))
    → lookup u (valid_principals m) ≡ (if validate_principal u then lookup u m else none)
unfolding valid_principals lookup
lookup-valid_principals u [] = ground arith
lookup-valid_principals u ((k, v) ∷ m) = ground (
  arith,
  lookup-insert k u v (valid_principals m),
  bytes_beq_iff k u,
  lookup-valid_principals u m,
)

-- Every name with an entry is valid.
abbrev pub IsSafe : CacheJson → Type 0
IsSafe c = (u : Bytes) (ids : List Bytes) → lookup u c.principals ≡ some ids → IsValidName u

valid_principals-IsSafe :
    (m : Dict Bytes (List Bytes)) (u : Bytes) (ids : List Bytes)
    → lookup u (valid_principals m) ≡ some ids
    → IsValidName u
valid_principals-IsSafe m u ids h = ground (arith, lookup-valid_principals u m)

-- The operations that write the cache, as the daemon may run them in any order.
pub data Step (json : Json) : CacheJson → CacheJson → Type 0 where
  configures : {c : CacheJson} (dc : Option DaemonConfig) → Step json c (set_daemon_config dc c)
  replaces :
      {c : CacheJson} (m : Dict Bytes (List Bytes)) (dc : Option DaemonConfig) (ca : Bytes)
      (old : List RetiredCaKey) (v : ℤ)
      → Step json c (replace m dc ca old v c)
  clears : {c : CacheJson} → Step json c (clear c)
  loads : {c : CacheJson} (text : Bytes) → Step json c (unmarshal_json json text c).0

pub data Reach (json : Json) : CacheJson → Type 0 where
  start : Reach json new_cache
  next : {c d : CacheJson} → Reach json c → Step json c d → Reach json d

Step-IsSafe : {json : Json} {c d : CacheJson} → Step json c d → IsSafe c → IsSafe d
unfolding set_daemon_config replace clear lookup unmarshal_json validate_principal
Step-IsSafe (configures dc) s = s
Step-IsSafe (replaces m dc ca old v) s = valid_principals-IsSafe m
Step-IsSafe clears s = λ u ids h. cc
Step-IsSafe {json} {c} (loads text) s = elim (Option-cases (json.unmarshal text)) [
  | inl e ↦ rw (e, unmarshal_json) s
  | inr (n, e) ↦ rw (e, unmarshal_json) (valid_principals-IsSafe n.principals)
]

Reach-IsSafe : {json : Json} {c : CacheJson} → Reach json c → IsSafe c
unfolding new_cache lookup
Reach-IsSafe start = λ u ids h. cc
Reach-IsSafe (next r st) = Step-IsSafe st (Reach-IsSafe r)

-- Whatever the backend sends and whatever file is loaded, only valid names ever have principals.
pub Reach-IsValidName :
    {json : Json} {c : CacheJson}
    → Reach json c
    → (u : Bytes) → cert_principals c u ≢ []
    → IsValidName u
unfolding cert_principals
Reach-IsValidName {c} r u h = elim (Option-cases (lookup u c.principals)) [
  | inl e ↦ absurd (h (rw e))
  | inr (ids, e) ↦ Reach-IsSafe r u ids e
]

cert_principals-valid_principals :
    (c : CacheJson)
    → IsSafe c
    → (u : Bytes)
    → cert_principals (record c { principals = valid_principals c.principals }) u
      ≡ cert_principals c u
unfolding cert_principals
cert_principals-valid_principals c safe u = elim (Option-cases (lookup u c.principals)) [
  | inl e ↦ ground (arith, lookup-valid_principals u c.principals)
  | inr (ids, e) ↦ ground (arith, safe u ids e, lookup-valid_principals u c.principals)
]

-- A cache that is written to its file and read back answers every login as before, and keeps the
-- version, the configuration and the CA keys, if the JSON library reads back what it wrote.
pub unmarshal_json-marshal_json :
    (json : Json) (c : CacheJson) (old : CacheJson)
    → Reach json c
    → json.unmarshal (json.marshal c) ≡ some c
    → let (d, done) = unmarshal_json json (marshal_json json c) old in
      (done ≡ true)
      × ((u : Bytes) → cert_principals d u ≡ cert_principals c u)
      × (record d { principals = c.principals } ≡ c)
unfolding unmarshal_json marshal_json
unmarshal_json-marshal_json json c old r e =
    rw (e, unmarshal_json) (refl, cert_principals-valid_principals c (Reach-IsSafe r), refl)
