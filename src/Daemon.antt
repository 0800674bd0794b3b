-- ===== src/Daemon.antt =====
-- main.go: the state that a start loads, and how it enrolls. Flags, files, the environment, URL
-- parsing and the backend are arguments.
pub mod Loaded
pub mod Started
mod Tests
use nokkud.Base.{
  is_empty, Bytes, codes, inl, inr, Bool, false, not, Option, none, some, [], reverse, ◌⊎◌, ◌&&◌,
  ◌||◌, ◌∷◌, ◌==◌, if◌then◌else◌, nat_eq, bytes_eq,
}
use nokkud.Sshd.Trust.{no_trust, set_trust}
use nokkud.Addr.{Addr, is_loopback, addr_eq}
use nokkud.State.Cache.{CacheJson, cas}
use nokkud.Sshd.Policy.{default_policy, policy_from}
use nokkud.Client.Sync.{Client, Config, EnrollError, EnrollResponse, Removal, enroll}

-- `state.DefaultAPIURL`.
abbrev pub default_api_url : Bytes
default_api_url = codes "https://app.nokku.sh"

-- The flags; `api` is `none` if it is not set.
pub record Flags : Type 0 where
  pub api : Option Bytes
  pub api_pin : Bytes
  pub ca_file : Bytes

-- `url.URL`, as far as it is read.
pub record Url : Type 0 where
  pub scheme : Bytes
  pub hostname : Bytes

-- What the start meets: whether it is root, `paths.Verify`, what loading the cache and the config
-- gives, whether the config can be saved, reading a file, `trust.ParseBundle`, `url.Parse`,
-- `netip.ParseAddr`, the variable of the token, `trust.Bootstrap` of a URL and a pin, whether the rest
-- of `client.New` succeeds, the host key of `sshd.New`, the host certificate, `ssh.ParseAuthorizedKey`, and what `enroll`
-- of the client meets.
pub record Host : Type 0 where
  pub root : Bool
  pub verified : Bool
  pub cache : Option CacheJson
  pub config : Option Config
  pub config_saves : Bool
  pub read_file : Bytes → Option Bytes
  pub is_bundle : Bytes → Bool
  pub parse_url : Bytes → Option Url
  pub parse_addr : Bytes → Addr
  pub enroll_token : Bytes
  pub bootstrap : Bytes → Bytes → Option Bytes
  pub client_built : Bool
  pub host_key : Bool
  pub host_cert : Option Bytes
  pub parse_key : Bytes → Option Bytes
  pub cache_saves : Bool
  pub removal : Removal
  pub answer : Option EnrollResponse

pub data StartError : Type 0 where
  not_root not_verified bad_cache bad_config bad_url bad_ca_file config_not_saved : StartError
  not_enrolled bad_pin no_client no_host_key : StartError
  not_enrolling : EnrollError → StartError

-- `checkAPIURL`.
unfoldable pub check_api_url : Host → Bytes → Bool
check_api_url host raw = elim (host.parse_url raw) [
  | none ↦ false
  | some u ↦
      u.scheme == codes "https"
      || (u.scheme == codes "http"
          && (u.hostname == codes "localhost" || is_loopback (host.parse_addr u.hostname)))
]

drop_slashes : Bytes → Bytes
drop_slashes [] = []
drop_slashes (c ∷ cs) = let rest = drop_slashes cs in if c == b'/' then rest else c ∷ cs

-- `strings.TrimRight(s, "/")`.
unfoldable pub trim_slashes : Bytes → Bytes
unfolding drop_slashes
trim_slashes s = reverse (drop_slashes (reverse s))

-- The address of the backend, from the flag, from the config or the default.
unfoldable pub with_api : Option Bytes → Config → Config
with_api none config =
    if is_empty config.api_url then record config { api_url = default_api_url } else config
with_api (some api) config =
    let moved = record config { api_url = trim_slashes api; api_ca = [] } in
    let named = if trim_slashes api == config.api_url then config else moved in
    if is_empty named.api_url then record named { api_url = default_api_url } else named

-- The CA file; `none` if it cannot be read or is no bundle.
unfoldable pub with_ca_file : Host → Bytes → Config → Option Config
with_ca_file host path config = if is_empty path then some config else elim (host.read_file path) [
  | none ↦ none
  | some ca ↦ if host.is_bundle ca then some (record config { api_ca = ca }) else none
]

-- The saving at the end of `loadState`.
unfoldable pub save_state :
    Host → CacheJson → Config → Option Config × ((CacheJson × Config) ⊎ StartError)
save_state host cache config =
    if host.config_saves then (some config, inl (cache, config)) else (none, inr config_not_saved)

-- `loadState`: the config that it saves, and its result.
unfoldable pub load_state : Host → Flags → Option Config × ((CacheJson × Config) ⊎ StartError)
load_state host flags = if not host.verified then (none, inr not_verified) else elim host.cache [
  | none ↦ (none, inr bad_cache)
  | some cache ↦ elim host.config [
    | none ↦ (none, inr bad_config)
    | some config ↦
        let named = with_api flags.api config in
        if not (check_api_url host named.api_url)
        then (none, inr bad_url)
        else elim (with_ca_file host flags.ca_file named) [
          | none ↦ (none, inr bad_ca_file)
          | some ready ↦ save_state host cache ready
        ]
  ]
]

-- The client before its server runs.
unfoldable pub new_client : Host → Option Config → CacheJson → Config → Client
new_client host saved cache config = record {
  cache = cache;
  config = config;
  policy = default_policy;
  trust = no_trust;
  live = [];
  renew = false;
  saved_cache = some cache;
  saved_config = saved;
  host_cert = host.host_cert;
}

-- `client.New`, with its enrollment; `newDaemonClient` changes only the text of its error.
unfoldable pub build_client : Host → Bytes → Client → Client ⊎ StartError
build_client host token c =
    if not host.client_built
    then inr no_client
    else if is_empty token
    then inl c
    else (let (d, err) = enroll host.config_saves host.cache_saves host.removal host.answer c in
        elim err [ none ↦ inl d | some e ↦ inr (not_enrolling e) ])

-- `enrollHost`.
unfoldable pub enroll_host : Host → Flags → Bytes → Client → Client ⊎ StartError
enroll_host host flags token c =
    if is_empty token || is_empty flags.api_pin
    then build_client host token c
    else elim (host.bootstrap c.config.api_url flags.api_pin) [
      | none ↦ inr bad_pin
      | some ca ↦
          let config' = record c.config { api_ca = ca } in
          if host.config_saves
          then build_client host token (record c { config = config'; saved_config = some config' })
          else inr config_not_saved
    ]

-- The token of `run`: none for a host that is enrolled; `none` is a host that is not and has no
-- variable.
unfoldable pub start_token : Host → Config → Option Bytes
start_token host config =
    if not (is_empty config.daemon_id)
    then some []
    else if is_empty host.enroll_token
    then none
    else some host.enroll_token

-- The server of `run`, with the policy and the trust of the cache.
unfoldable pub start_server : Host → Client → Client ⊎ StartError
start_server host c =
    if not host.host_key
    then inr no_host_key
    else inl (record c {
      policy = policy_from c.cache.daemon_config;
      trust = set_trust host.parse_key (cas c.cache).0 (cas c.cache).1 no_trust;
    })

-- `run` on a state that was loaded, up to the server.
unfoldable pub run_loaded : Host → Flags → Option Config → CacheJson → Config → Client ⊎ StartError
run_loaded host flags saved cache config = elim (start_token host config) [
  | none ↦ inr not_enrolled
  | some token ↦ elim (enroll_host host flags token (new_client host saved cache config)) [
    | inr err ↦ inr err
    | inl c ↦ start_server host c
  ]
]

-- `run` up to the server.
unfoldable pub run_daemon : Host → Flags → Client ⊎ StartError
run_daemon host flags =
    if not host.root
    then inr not_root
    else (let (saved, loaded) = load_state host flags in
        elim loaded [
          | inr err ↦ inr err
          | inl (cache, config) ↦ run_loaded host flags saved cache config
        ])

-- The `enroll` command, behind the reading of the token.
unfoldable pub enroll_command : Host → Flags → Option Bytes → Client ⊎ StartError
enroll_command host flags token =
    if not host.root
    then inr not_root
    else (let (saved, loaded) = load_state host flags in
        elim loaded [
          | inr err ↦ inr err
          | inl (cache, config) ↦ elim token [
            | none ↦ inr not_enrolled
            | some t ↦ enroll_host host flags t (new_client host saved cache config)
          ]
        ])

-- What `reset` does: it fails, or it removes the local state, after telling the backend if a client
-- could be built.
unfoldable pub reset_command : Host → Flags → Option Bool
reset_command host flags =
    if not host.root
    then none
    else (let (saved, loaded) = load_state host flags in
        elim loaded [ inr err ↦ some false | inl _ ↦ some host.client_built ])
