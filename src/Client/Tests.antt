-- ===== src/Client/Tests.antt =====
-- The theorems on the control connection and on relayed connections at concrete runs.
use nokkud.Base.{all, Bytes, codes, pos, refl, true, false, Option, none, some, List, [], ◌≡◌, ◌∷◌}
use nokkud.Client.Relay.Whole.{Reads, read-Reads}
use nokkud.State.Cache.{new_cache, cert_principals}
use nokkud.Sshd.Auth.{Permissions}
use nokkud.Sshd.Policy.{default_policy, policy_from}
use nokkud.Client.Sync.{
  Client, Config, SyncResponse, EnrollResponse, sync_daemon, accepted, pending, rejected,
}
use nokkud.Client.Sync.Applied.{settled, sync_daemon-settled, IsTrustOf, answered}
use nokkud.Client.Relay.{Response, data_frame, closed_frame, unset, relay_conn, read}
use nokkud.Client.Relay.Last.{Call, writes, closes}

abbrev perms : Permissions
perms = record {
  critical_options = [];
  extensions = (codes "nokku-principal", codes "p1") ∷ (codes "nokku-ca", codes "ca") ∷ [];
  account = none;
}

abbrev config : Config
config = record {
  target_id = codes "t1";
  daemon_id = codes "d1";
  api_url = codes "https://app.nokku.sh";
  api_ca = [];
  session_token = codes "secret";
}

abbrev client : Client
client = record {
  cache = new_cache;
  config = config;
  policy = default_policy;
  trust = record { trusted_cas = []; retired_cas = [] };
  live = record { user = codes "ann"; permissions = perms; closed = false } ∷ [];
  renew = false;
  saved_cache = none;
  saved_config = none;
  host_cert = some (codes "old");
}

abbrev parse : Bytes → Option Bytes
parse text = some text

abbrev response : SyncResponse
response = record {
  status = accepted;
  principals = (codes "ann", codes "p1" ∷ []) ∷ [];
  config = none;
  ca_public_key = codes "ca";
  retired_ca_keys = [];
  state_version = pos 1;
}

sync_daemon-settled_example :
    let d = (sync_daemon parse 5 true true (some response) client).0 in
    ((u : Bytes) → cert_principals d.cache u ≡ answered u response.principals)
    × (IsTrustOf parse response client.trust d.trust
        × ((d.policy ≡ policy_from none) × (all (settled 5 d) d.live ≡ true)))
sync_daemon-settled_example = sync_daemon-settled parse 5 true true response client refl

abbrev pending_response : SyncResponse
pending_response = record response { status = pending; principals = []; ca_public_key = [] }

abbrev rejection : SyncResponse
rejection = record response { status = rejected }

abbrev enrollment : EnrollResponse
enrollment = record {
  target_id = codes "t2";
  id = codes "d2";
  access_token = codes "token";
  config = none;
}

abbrev frames : List Response
frames = unset ∷ data_frame [] ∷ data_frame (b'a' ∷ b'b' ∷ b'c' ∷ []) ∷ closed_frame ∷ []

read-Reads_example : Reads 2 (b'a' ∷ b'b' ∷ b'c' ∷ []) (read 2 relay_conn frames)
read-Reads_example = read-Reads 2 relay_conn frames

abbrev calls : List Call
calls =
    writes true (b'a' ∷ [])
    ∷ closes false true
    ∷ closes true true
    ∷ writes true (b'b' ∷ [])
    ∷ closes true true
    ∷ []
