-- ===== src/Daemon/Tests.antt =====
-- A host that enrolls at its start, and one that was enrolled before.
use nokkud.Addr.{invalid}
use nokkud.Base.{
  Bytes, codes, bytes_beq, pos, ℕ, refl, inl, inr, true, false, none, some, [], ◌≡◌, ◌⊎◌, ◌∷◌,
}
use nokkud.Daemon.Started.{start_enrolled, start_fresh}
use nokkud.Sshd.Trust.{no_trust, set_trust, trusted_ca_wire}
use nokkud.Daemon.{
  Flags, Host, StartError, build_client, check_api_url, enroll_host, load_state, new_client,
  run_daemon, run_loaded, save_state, start_server, start_token, with_api, with_ca_file,
  trim_slashes,
}
use nokkud.Daemon.Loaded.{Ready, SameIds, load_state-Ready}
use nokkud.State.Cache.{CacheJson, cas, cert_principals, new_cache, replace}
use nokkud.Client.Sync.{not_exist, Client, Config, enroll, take_enrollment}

abbrev blank_config : Config
blank_config = record {
  target_id = [];
  daemon_id = [];
  api_url = [];
  api_ca = codes "old";
  session_token = [];
}

abbrev enrolled_config : Config
enrolled_config = record {
  target_id = codes "t1";
  daemon_id = codes "d1";
  api_url = codes "https://app.nokku.sh";
  api_ca = [];
  session_token = codes "secret";
}

abbrev disk_cache : CacheJson
disk_cache = replace ((codes "ann", codes "p1" ∷ []) ∷ []) none (codes "ca") [] (pos 1) new_cache

abbrev blank_host : Host
blank_host = record {
  root = true;
  verified = true;
  cache = some disk_cache;
  config = some blank_config;
  config_saves = true;
  read_file = λ path. none;
  is_bundle = λ pem. true;
  parse_url = λ raw. some (record { scheme = codes "https"; hostname = codes "app.nokku.sh" });
  parse_addr = λ text. invalid;
  enroll_token = codes "token";
  bootstrap = λ url pin. none;
  client_built = true;
  host_key = true;
  host_cert = none;
  parse_key = λ text. some text;
  cache_saves = true;
  removal = not_exist;
  answer = some (record {
    target_id = codes "t2";
    id = codes "d2";
    access_token = codes "other";
    config = none;
  });
}

abbrev enrolled_host : Host
enrolled_host = record blank_host { config = some enrolled_config }

abbrev no_flags : Flags
no_flags = record { api = none; api_pin = []; ca_file = [] }

abbrev client_of : Client ⊎ StartError → Client
client_of (inl c) = c
client_of (inr _) = new_client blank_host none disk_cache blank_config

abbrev fresh_client : Client
fresh_client = client_of (run_daemon blank_host no_flags)

abbrev old_client : Client
old_client = client_of (run_daemon enrolled_host no_flags)

-- A host whose saved address has a saved CA, and a flag that names that address.
abbrev private_config : Config
private_config = record enrolled_config { api_ca = codes "pem" }

abbrev private_host : Host
private_host = record blank_host { config = some private_config }

abbrev same_address : Flags
same_address = record no_flags { api = some (codes "https://app.nokku.sh/") }

load_state-Ready_example :
    Ready private_host same_address (some private_config) disk_cache private_config
unfolding load_state check_api_url with_api with_ca_file save_state trim_slashes codes bytes_beq
    replace
load_state-Ready_example =
    load_state-Ready private_host same_address (some private_config) disk_cache private_config refl

start_enrolled_example :
    SameIds enrolled_config old_client.config
    × ((some disk_cache ≡ some old_client.cache)
        × ((check_api_url enrolled_host old_client.config.api_url ≡ true)
            × (old_client.trust
                ≡ set_trust
                    (λ text. some text)
                    (cas old_client.cache).0
                    (cas old_client.cache).1
                    no_trust)))
unfolding run_daemon run_loaded start_token enroll_host build_client start_server load_state
    check_api_url with_api with_ca_file save_state codes bytes_beq replace
start_enrolled_example =
    start_enrolled enrolled_host no_flags enrolled_config old_client refl refl refl

start_fresh_example :
    ((u : Bytes) → cert_principals fresh_client.cache u ≡ [])
    × (((now : ℕ) (wire : Bytes) → trusted_ca_wire now fresh_client.trust wire ≡ false)
        × (check_api_url blank_host fresh_client.config.api_url ≡ true))
unfolding run_daemon run_loaded start_token enroll_host build_client start_server load_state
    check_api_url with_api with_ca_file save_state codes bytes_beq replace enroll take_enrollment
    new_client
start_fresh_example = start_fresh blank_host no_flags blank_config fresh_client refl refl refl
