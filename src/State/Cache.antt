-- ===== src/State/Cache.antt =====
-- internal/state/cache.go: what the last sync left, under its lock. The JSON library is a parameter.
pub mod Laws
use nokkud.Base.{
  Bytes, Dict, lookup, insert, get_or, ℤ, pos, ℕ, Bool, true, false, Option, none, some, List, [],
  ◌∷◌, if◌then◌else◌, nat_eq, bytes_eq,
}
use nokkud.State.Principal.{validate_principal}

-- The fields of the backend's `DaemonConfig` that the daemon reads; `none` is unset.
pub record DaemonConfig : Type 0 where
  pub record_sessions : Option Bool
  pub allow_forwarding : Option Bool
  pub allow_agent_forwarding : Option Bool
  pub gateway_ports : Option Bool
  pub ephemeral : Option Bool

-- The backend's `RetiredCAKey`; times are nanoseconds since year 1.
pub record RetiredCaKey : Type 0 where
  pub public_key : Bytes
  pub trusted_until : ℕ

-- `cacheJSON`.
pub record CacheJson : Type 0 where
  pub principals : Dict Bytes (List Bytes)
  pub state_version : ℤ
  pub daemon_config : Option DaemonConfig
  pub ca : Bytes
  pub retired_cas : List RetiredCaKey

abbrev pub empty_cache : CacheJson
empty_cache = record {
  principals = [];
  state_version = pos 0;
  daemon_config = none;
  ca = [];
  retired_cas = [];
}

-- `NewCache`.
unfoldable pub new_cache : CacheJson
new_cache = empty_cache

-- `CertPrincipals`: a missing name has the nil slice.
unfoldable pub cert_principals : CacheJson → Bytes → List Bytes
cert_principals c username = get_or (lookup username c.principals) []

-- `SetDaemonConfig`.
unfoldable pub set_daemon_config : Option DaemonConfig → CacheJson → CacheJson
set_daemon_config dc c = record c { daemon_config = dc }

-- `CAs`.
unfoldable pub cas : CacheJson → Bytes × List RetiredCaKey
cas c = (c.ca, c.retired_cas)

-- `validPrincipals`. Go leaves the order of the loop open; here the last entry goes first.
unfoldable pub valid_principals : Dict Bytes (List Bytes) → Dict Bytes (List Bytes)
valid_principals [] = []
valid_principals ((principal, uuids) ∷ m) =
    let next = valid_principals m in
    if validate_principal principal then insert principal uuids next else next

-- `Replace`.
unfoldable pub replace :
    Dict Bytes (List Bytes)
    → Option DaemonConfig
    → Bytes
    → List RetiredCaKey
    → ℤ
    → CacheJson
    → CacheJson
replace principals dc ca retired_cas version c = record {
  principals = valid_principals principals;
  state_version = version;
  daemon_config = dc;
  ca = ca;
  retired_cas = retired_cas;
}

-- `Clear`.
unfoldable pub clear : CacheJson → CacheJson
clear c = empty_cache

-- `encoding/json` on `cacheJSON`.
pub record Json : Type 0 where
  pub marshal : CacheJson → Bytes
  pub unmarshal : Bytes → Option CacheJson

module _ (json : Json) where
  -- `MarshalJSON`.
  unfoldable pub marshal_json : CacheJson → Bytes
  marshal_json c = json.marshal c

  -- `UnmarshalJSON`; the flag is false where it returns an error, and then nothing changes.
  unfoldable pub unmarshal_json : Bytes → CacheJson → CacheJson × Bool
  unmarshal_json data' c = elim (json.unmarshal data') [
    | none ↦ (c, false)
    | some next ↦ (record next { principals = valid_principals next.principals }, true)
  ]
