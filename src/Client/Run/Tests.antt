-- ===== src/Client/Run/Tests.antt =====
-- A run whose second answer is a rejection, and a watcher with a certificate of ten days.
use nokkud.Client.Run.Stops.{run_client_stops, LetsNobodyIn, is_refused}
use nokkud.Client.Run.{rejection, stop, runs_on}
use nokkud.Base.{
  any, Bytes, codes, bytes_beq, pos, max, refl, inl, true, false, Option, none, some, [], arith,
  ◌+◌, ◌≤◌, ◌≡◌, ◌⊎◌, ◌∷◌, ◌==◌, if◌then◌else◌, nat_eq, bytes_eq,
}
use nokkud.Client.Run.Watch.{watch_in_time}
use nokkud.Sshd.Account.{trim_space}
use nokkud.Hostcerts.{
  HostFiles, is_current, is_for, is_valid, load, matches_key, needs_renewal, next_for, next_renewal,
  parse_certificate_bytes, renewal_deadline, signed_by,
}
use nokkud.Hostcerts.Window.{time}
use nokkud.Client.Run.Stops.{calls_of_rounds}
use nokkud.Hostcerts.Clock.{
  half, half_way, round_even, sub_time, to_float64, uint64_to_unix_time, ulp, unix,
}
use nokkud.State.Cache.{CacheJson, cas, new_cache, replace}
use nokkud.Sshd.Policy.{default_policy}
use nokkud.Client.Sync.{accepted, rejected, Client, Config, DaemonStatus, sync_daemon}
use nokkud.Client.Run.{
  state_update, relay_open, Round, SyncCall, is_rejection, min_renew_delay, receive_all, rejection,
  run_client, run_control_stream, run_rounds, sync, watch_delay,
}
use nokkud.Certificate.{host_cert, plain, certificate, Certificate, PublicKey}

abbrev run_config : Config
run_config = record {
  target_id = codes "t1";
  daemon_id = codes "d1";
  api_url = codes "https://app.nokku.sh";
  api_ca = [];
  session_token = codes "secret";
}

abbrev run_cache : CacheJson
run_cache = replace ((codes "ann", codes "p1" ∷ []) ∷ []) none (codes "ca") [] (pos 1) new_cache

abbrev run_state : Client
run_state = record {
  cache = run_cache;
  config = run_config;
  policy = default_policy;
  trust = record { trusted_cas = []; retired_cas = [] };
  live = [];
  renew = false;
  saved_cache = none;
  saved_config = none;
  host_cert = none;
}

abbrev run_answer : DaemonStatus → SyncCall
run_answer status = record {
  cache_saves = true;
  config_saves = true;
  now = 5;
  answer = some (record {
    status = status;
    principals = (codes "ann", codes "p1" ∷ []) ∷ [];
    config = none;
    ca_public_key = codes "ca";
    retired_ca_keys = [];
    state_version = pos 2;
  });
}

abbrev run_round : Round
run_round = record {
  dialed = true;
  received = relay_open ∷ state_update (run_answer rejected) ∷ [];
  done_after = false;
  done_waiting = false;
  then_sync = run_answer accepted;
}

stops_there :
    (run_client (λ k. some k) (run_answer accepted) (run_round ∷ []) run_state).1 ≡ rejection
unfolding run_client run_rounds run_control_stream receive_all sync is_rejection sync_daemon
stops_there = refl

run_client_stops_example :
    let (d, outcome) = run_client (λ k. some k) (run_answer accepted) (run_round ∷ []) run_state in
    ((outcome ≡ rejection) × LetsNobodyIn d)
    ⊎ ((outcome ≡ stop)
        ⊎ ((outcome ≡ runs_on)
            × (any (λ i. is_refused i) (run_answer accepted ∷ calls_of_rounds (run_round ∷ []))
                ≡ false)))
run_client_stops_example =
    run_client_stops (λ k. some k) (run_answer accepted) (run_round ∷ []) run_state

abbrev watched : Certificate
watched = record {
  wire = codes "W";
  key = codes "K";
  cert_type = host_cert;
  key_id = codes "host";
  valid_principals = codes "t1" ∷ [];
  valid_after = 1000000;
  valid_before = 1864000;
  critical_options = [];
  extensions = [];
  signature_key = codes "C";
}

abbrev watched_keys : Bytes → Option PublicKey
watched_keys data' =
    if data' == codes "cert"
    then some (certificate watched)
    else if data' == codes "ca"
    then some (plain (codes "C"))
    else some (plain (codes "K"))

abbrev watched_files : HostFiles
watched_files = record { host_key_pub = some (codes "key"); host_key_cert = some (codes "cert") }

watch_in_time_example :
    (needs_renewal watched_keys (time 1500000) (codes "t1") (plain (codes "C")) watched_files
      ≡ none)
    ⊎ (time 1000000 + watch_delay watched_keys 7 (time 1000000) run_state (watched_files, inl false)
        ≤ max (time 1500000) (time 1000000 + min_renew_delay))
unfolding load parse_certificate_bytes codes bytes_beq trim_space needs_renewal is_current is_valid
    is_for uint64_to_unix_time unix renewal_deadline half_way half to_float64 ulp round_even
    sub_time matches_key signed_by next_renewal next_for cas replace
watch_in_time_example =
    watch_in_time watched_keys 7 (time 1000000) (time 1500000) run_state (codes "key")
      (plain (codes "C")) watched watched_files false (omega arith) refl refl refl refl refl
      (omega arith)
