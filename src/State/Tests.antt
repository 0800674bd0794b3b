-- ===== src/State/Tests.antt =====
-- Runs of internal/state, and its theorems at concrete inputs.
use nokkud.Base.{
  length, Bytes, codes, bytes_beq, Dict, lookup, insert, pos, refl, true, false, none, some, List,
  [], ◌≤◌, ◌≡◌, ◌↔◌, ◌∷◌, nat_eq, bytes_eq,
}
use nokkud.State.Principal.{validate_principal}
use nokkud.State.Principal.Grammar.{IsPosixUser, validate_principal_iff}
use nokkud.State.Cache.{
  CacheJson, Json, new_cache, cert_principals, valid_principals, replace, marshal_json,
  unmarshal_json,
}
use nokkud.State.Cache.Laws.{replaces, Reach, start, next, unmarshal_json-marshal_json}

names :
    (validate_principal (codes "john.doe") ≡ true)
    × (validate_principal (codes "host$") ≡ true)
    × (validate_principal (codes "1000") ≡ false)
    × (validate_principal (codes "-rf") ≡ false)
    × (validate_principal (codes "a$b") ≡ false)
    × (validate_principal [] ≡ false)
unfolding validate_principal codes
names = (refl, refl, refl, refl, refl, refl)

abbrev answer : Dict Bytes (List Bytes)
answer = (codes "root", codes "p1" ∷ []) ∷ (codes "../x", codes "p2" ∷ []) ∷ []

synced : CacheJson
unfolding replace codes
synced = replace answer none (codes "ca") [] (pos 7) new_cache

synced-Reach : (json : Json) → Reach json synced
unfolding synced
synced-Reach json = next start (replaces answer none (codes "ca") [] (pos 7))

stuck_json : Json
stuck_json = record { marshal = λ c. []; unmarshal = λ text. some synced }

synced_principals :
    (cert_principals synced (codes "root") ≡ codes "p1" ∷ [])
    × (cert_principals synced (codes "../x") ≡ [])
unfolding synced cert_principals valid_principals validate_principal lookup insert codes bytes_beq
synced_principals = (refl, refl)

validate_principal_iff_example :
    (validate_principal (codes "root") ≡ true)
    ↔ ((length (codes "root") ≤ 32) × IsPosixUser (codes "root"))
validate_principal_iff_example = validate_principal_iff (codes "root")

unmarshal_json-marshal_json_example :
    let (d, done) = unmarshal_json stuck_json (marshal_json stuck_json synced) new_cache in
    (done ≡ true)
    × ((u : Bytes) → cert_principals d u ≡ cert_principals synced u)
    × (record d { principals = synced.principals } ≡ synced)
unfolding stuck_json
unmarshal_json-marshal_json_example =
    unmarshal_json-marshal_json stuck_json synced new_cache (synced-Reach stuck_json) refl
