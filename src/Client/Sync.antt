-- ===== src/Client/Sync.antt =====
-- internal/client/sync.go and `enroll` of internal/client/client.go. The backend's answers, the
-- file system and `ssh.ParseAuthorizedKey` are arguments.
pub mod Applied
pub mod Refused
pub mod Enrolled
use nokkud.Base.{
  is_empty, Bytes, Dict, insert, ℤ, ℕ, Bool, true, Option, none, some, List, [], ◌||◌, ◌∷◌, ◌==◌,
  if◌then◌else◌, nat_eq, bytes_eq,
}
use nokkud.Sshd.Trust.{Trust, set_trust}
use nokkud.Sshd.Live.{ServerConn, drop_revoked}
use nokkud.Sshd.Policy.{Policy, policy_from}
use nokkud.State.Cache.{
  CacheJson, DaemonConfig, RetiredCaKey, cas, cert_principals, clear, replace, set_daemon_config,
}

-- `state.Config`.
pub record Config : Type 0 where
  pub target_id : Bytes
  pub daemon_id : Bytes
  pub api_url : Bytes
  pub api_ca : Bytes
  pub session_token : Bytes

-- The client with what it changes: the server's policy, trust and open connections, and the files of
-- the cache, of the config and of the host certificate. `renew` says whether the channel of that
-- name, which holds one element, is full.
pub record Client : Type 0 where
  pub cache : CacheJson
  pub config : Config
  pub policy : Policy
  pub trust : Trust
  pub live : List ServerConn
  pub renew : Bool
  pub saved_cache : Option CacheJson
  pub saved_config : Option Config
  pub host_cert : Option Bytes

-- `DaemonStatus`; `other` is a number that the enumeration does not name.
pub data DaemonStatus : Type 0 where
  unspecified pending accepted rejected : DaemonStatus
  other : ℕ → DaemonStatus

-- `SyncDaemonResponse`.
pub record SyncResponse : Type 0 where
  pub status : DaemonStatus
  pub principals : List (Bytes × List Bytes)
  pub config : Option DaemonConfig
  pub ca_public_key : Bytes
  pub retired_ca_keys : List RetiredCaKey
  pub state_version : ℤ

pub data SyncError : Type 0 where
  call_failed daemon_rejected save_failed : SyncError

-- The loop that collects the principals.
unfoldable pub collect :
    List (Bytes × List Bytes) → Dict Bytes (List Bytes) → Dict Bytes (List Bytes)
collect [] m = m
collect ((username, uuids) ∷ ps) m = collect ps (insert username uuids m)

-- `Save` of the cache, with whether the file system does it.
abbrev pub save_cache : Bool → Client → Client
save_cache ok c = record c { saved_cache = if ok then some c.cache else c.saved_cache }

abbrev pub save_config : Bool → Config → Client → Client
save_config ok config c = record c { saved_config = if ok then some config else c.saved_config }

-- The last line of `syncDaemon`.
abbrev pub save_applied : Bool → Client → Client × Option SyncError
save_applied ok c = (save_cache ok c, if ok then none else some save_failed)

module _ (parse : Bytes → Option Bytes) (now : ℕ) where
  -- The part of `syncDaemon` that applies an answer, up to the saving.
  unfoldable pub apply : SyncResponse → Client → Client
  unfolding collect
  apply res c =
      let next =
        replace (collect res.principals []) res.config res.ca_public_key res.retired_ca_keys
          res.state_version c.cache in
      let next_trust = set_trust parse res.ca_public_key res.retired_ca_keys c.trust in
      record c {
        cache = next;
        policy = policy_from res.config;
        trust = next_trust;
        live = drop_revoked (cert_principals next) now next_trust c.live;
        renew = if res.ca_public_key == (cas c.cache).0 then c.renew else true;
      }

  -- The answer of a backend that has rejected the daemon.
  unfoldable pub forget : Bool → Bool → Client → Client
  forget cache_saves config_saves c =
      save_config config_saves
        (record {
          target_id = [];
          daemon_id = [];
          api_url = c.config.api_url;
          api_ca = c.config.api_ca;
          session_token = [];
        })
        (save_cache cache_saves (record c { cache = clear c.cache }))

  -- `syncDaemon`; `none` is a call that fails. The flags say which files can be saved.
  unfoldable pub sync_daemon :
      Bool → Bool → Option SyncResponse → Client → Client × Option SyncError
  unfolding apply forget
  sync_daemon cache_saves config_saves none c = (c, some call_failed)
  sync_daemon cache_saves config_saves (some res) c = elim res.status [
    | rejected ↦ (forget cache_saves config_saves c, some daemon_rejected)
    | accepted ↦ save_applied cache_saves (apply res c)
    | pending ↦ save_applied cache_saves (apply res c)
    | unspecified ↦ (c, none)
    | (other n) ↦ save_applied cache_saves (apply res c)
  ]

-- `EnrollDaemonResponse`.
pub record EnrollResponse : Type 0 where
  pub target_id : Bytes
  pub id : Bytes
  pub access_token : Bytes
  pub config : Option DaemonConfig

pub data EnrollError : Type 0 where
  enroll_failed incomplete cert_not_dropped not_saved : EnrollError

-- What `os.Remove` answers.
pub data Removal : Type 0 where
  removed not_exist remove_failed : Removal

-- The end of `enroll`, once the answer is complete and the old certificate is gone.
unfoldable pub take_enrollment : Bool → Bool → EnrollResponse → Client → Client × Option EnrollError
take_enrollment config_saves cache_saves res c =
    let config' = record c.config {
      target_id = res.target_id;
      daemon_id = res.id;
      session_token = res.access_token;
    } in
    let d = record c {
      config = config';
      cache = set_daemon_config res.config c.cache;
      host_cert = none;
    } in
    let saved = save_config config_saves config' d in
    if config_saves
    then (save_cache cache_saves saved, if cache_saves then none else some not_saved)
    else (saved, some not_saved)

-- `enroll`; `none` is a call that fails.
unfoldable pub enroll :
    Bool → Bool → Removal → Option EnrollResponse → Client → Client × Option EnrollError
unfolding take_enrollment
enroll config_saves cache_saves answer none c = (c, some enroll_failed)
enroll config_saves cache_saves answer (some res) c =
    let d = record c { cache = clear c.cache } in
    if is_empty res.target_id || (is_empty res.id || is_empty res.access_token)
    then (c, some incomplete)
    else elim answer [
      | remove_failed ↦ (d, some cert_not_dropped)
      | removed ↦ take_enrollment config_saves cache_saves res d
      | not_exist ↦ take_enrollment config_saves cache_saves res d
    ]
