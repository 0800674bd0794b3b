-- ===== src/Daemon/Started.antt =====
-- Whom a daemon lets in that has just started.
use nokkud.Client.Sync.{enroll_failed}
use mathlib.Core.Option.{some-injective}
use nokkud.Base.{
  is_empty, Bool-cases, Option-cases, Bytes, lookup, ℕ, refl, sym, ap, inl, inr, Bool, true, false,
  not, Option, none, some, [], arith, Either-cases, ◌≡◌, ◌∙◌, ◌⊎◌, ◌||◌, nat_eq, bytes_eq,
}
use nokkud.Client.Relay.{read}
use nokkud.Daemon.Loaded.{SameIds, load_state-Ready}
use nokkud.Sshd.Policy.{policy_from}
use nokkud.Client.Sync.Enrolled.{IsClean, enroll-IsClean, enroll-IsTaken}
use nokkud.Sshd.Trust.{no_trust, set_trust, trusted_ca_wire, add_retired}
use nokkud.State.Cache.{CacheJson, cas, cert_principals}
use nokkud.Daemon.{
  Flags, Host, build_client, enroll_host, load_state, new_client, run_daemon, run_loaded,
  start_server, start_token, check_api_url,
}
use nokkud.Client.Sync.{Client, Config, enroll, EnrollResponse, Removal}

record Steps (host : Host) (flags : Flags) (c : Client) : Type 0 where
  pub saved : Option Config
  pub cache : CacheJson
  pub config : Config
  pub token : Bytes
  pub built : Client
  pub loaded : load_state host flags ≡ (saved, inl (cache, config))
  pub token_of : start_token host config ≡ some token
  pub enrolled : enroll_host host flags token (new_client host saved cache config) ≡ inl built
  pub served : start_server host built ≡ inl c

run_loaded-Steps :
    (host : Host) (flags : Flags) (saved : Option Config) (cache : CacheJson) (config : Config)
    (c : Client)
    → load_state host flags ≡ (saved, inl (cache, config))
    → run_loaded host flags saved cache config ≡ inl c
    → Steps host flags c
unfolding run_loaded
run_loaded-Steps host flags saved cache config c l e =
    elim (Option-cases (start_token host config)) [
      | inl a ↦ absurd (ground arith)
      | inr (token, a) ↦
          elim (Either-cases (enroll_host host flags token (new_client host saved cache config))) [
            | inr (err, b) ↦ absurd (ground arith)
            | inl (built, b) ↦ record {
              saved = saved;
              cache = cache;
              config = config;
              token = token;
              built = built;
              loaded = l;
              token_of = a;
              enrolled = b;
              served = ground arith;
            }
          ]
    ]

run_daemon-Steps :
    (host : Host) (flags : Flags) (c : Client) → run_daemon host flags ≡ inl c → Steps host flags c
unfolding run_daemon
run_daemon-Steps host flags c e = elim (Bool-cases host.root) [
  | inr a ↦ absurd (ground arith)
  | inl a ↦ elim (Either-cases (load_state host flags).1) [
    | inr (err, b) ↦ absurd (ground arith)
    | inl ((cache, config), b) ↦
        run_loaded-Steps host flags (load_state host flags).0 cache config c (ground arith)
          (ground arith)
  ]
]

build_client-cases :
    (host : Host) (token : Bytes) (c d : Client)
    → build_client host token c ≡ inl d
    → ((is_empty token ≡ true) × (d ≡ c))
      ⊎ ((is_empty token ≡ false)
          × (((enroll host.config_saves host.cache_saves host.removal host.answer c).1 ≡ none)
              × (d ≡ (enroll host.config_saves host.cache_saves host.removal host.answer c).0)))
unfolding build_client
build_client-cases host token c d e = elim (Bool-cases (is_empty token)) [
  | inl a ↦ inl (a, ground arith)
  | inr a ↦
      elim (Option-cases (enroll host.config_saves host.cache_saves host.removal host.answer c).1) [
        | inl b ↦ inr (a, (b, ground arith))
        | inr (err, b) ↦ absurd (ground arith)
      ]
]

-- The client of an enrollment, with the CA of the pin.
enroll_host-cases :
    (host : Host) (flags : Flags) (token : Bytes) (c d : Client)
    → enroll_host host flags token c ≡ inl d
    → (b : Client) × ((b.config.api_url ≡ c.config.api_url)
        × ((is_empty token ≡ true → b ≡ c) × (build_client host token b ≡ inl d)))
unfolding enroll_host
enroll_host-cases host flags token c d e =
    elim (Bool-cases (is_empty token || is_empty flags.api_pin)) [
      | inl a ↦ (c, (refl, (λ _. refl, ground arith)))
      | inr a ↦ elim (Option-cases (host.bootstrap c.config.api_url flags.api_pin)) [
        | inl b ↦ absurd (ground arith)
        | inr (ca, b) ↦ elim (Bool-cases host.config_saves) [
          | inr g ↦ absurd (ground arith)
          | inl g ↦ (
            record c {
              config = record c.config { api_ca = ca };
              saved_config = some (record c.config { api_ca = ca });
            },
            (refl, (λ x. absurd (ground arith), ground arith)),
          )
        ]
      ]
    ]

start_server-inl :
    (host : Host) (d c : Client)
    → start_server host d ≡ inl c
    → c ≡ record d {
      policy = policy_from d.cache.daemon_config;
      trust = set_trust host.parse_key (cas d.cache).0 (cas d.cache).1 no_trust;
    }
unfolding start_server
start_server-inl host d c e = ground arith

start_token-enrolled :
    (host : Host) (config : Config) (token : Bytes)
    → start_token host config ≡ some token
    → is_empty token ≡ not (is_empty config.daemon_id)
unfolding start_token
start_token-enrolled host config token e = ground arith

-- A CA that the cache does not have is not trusted.
clean-trust :
    (parse : Bytes → Option Bytes) (d : CacheJson) (now : ℕ) (wire : Bytes)
    → IsClean d
    → trusted_ca_wire now (set_trust parse (cas d).0 (cas d).1 no_trust) wire ≡ false
unfolding cas trusted_ca_wire lookup set_trust add_retired
clean-trust parse d now wire (ca, (retired, _)) = rw (ca, retired) refl

enroll-none :
    (cs ds : Bool) (answered : Removal) (c : Client)
    → (enroll cs ds answered none c).1 ≡ some enroll_failed
unfolding enroll
enroll-none cs ds answered c = refl

enrolled-IsClean :
    (cs ds : Bool) (answered : Removal) (answer : Option EnrollResponse) (c : Client)
    → (enroll cs ds answered answer c).1 ≡ none
    → IsClean (enroll cs ds answered answer c).0.cache
      × ((enroll cs ds answered answer c).0.config.api_url ≡ c.config.api_url)
enrolled-IsClean cs ds answered none c e = absurd (ground (arith, enroll-none cs ds answered c))
enrolled-IsClean cs ds answered (some res) c e = (
  elim (enroll-IsClean cs ds answered res c) [
    | inl (_, failed) ↦ absurd (ground arith)
    | inr v ↦ v
  ],
  ap (λ config. config.api_url) (enroll-IsTaken cs ds answered res c e).1.0,
)

-- What was loaded is what was saved before.
loaded_ids :
    (host : Host) (flags : Flags) (old : Config) (c : Client)
    → host.config ≡ some old
    → (v : Steps host flags c)
    → SameIds old v.config
      × ((host.cache ≡ some v.cache) × (check_api_url host v.config.api_url ≡ true))
loaded_ids host flags old c known v =
    let ready = load_state-Ready host flags v.saved v.cache v.config v.loaded in
    let same = some-injective ready.old old (sym ready.config_read ∙ known) in
    (rw⁻¹ (same) ready.same_ids, (ready.cache_read, ready.checked))

built_enrolled :
    (host : Host) (flags : Flags) (c : Client) (v : Steps host flags c)
    → is_empty v.config.daemon_id ≡ false
    → v.built ≡ new_client host v.saved v.cache v.config
built_enrolled host flags c v has_id =
    let (b, (_, (kept, built))) =
      enroll_host-cases host flags v.token (new_client host v.saved v.cache v.config) v.built
        v.enrolled in
    let no_token : is_empty v.token ≡ true =
      ground (arith, start_token-enrolled host v.config v.token v.token_of, has_id) in
    elim (build_client-cases host v.token b v.built built) [
      | inl (_, same) ↦ same ∙ kept no_token
      | inr (some_token, _) ↦ absurd (ground arith)
    ]

built_fresh :
    (host : Host) (flags : Flags) (c : Client) (v : Steps host flags c)
    → is_empty v.config.daemon_id ≡ true
    → IsClean v.built.cache × (v.built.config.api_url ≡ v.config.api_url)
unfolding new_client
built_fresh host flags c v no_id =
    let (b, (url, (_, built))) =
      enroll_host-cases host flags v.token (new_client host v.saved v.cache v.config) v.built
        v.enrolled in
    elim (build_client-cases host v.token b v.built built) [
      | inl (no_token, _) ↦
          absurd (ground (arith, start_token-enrolled host v.config v.token v.token_of, no_id))
      | inr (_, (fine, same)) ↦
          let (clean, kept) =
            enrolled-IsClean host.config_saves host.cache_saves host.removal host.answer b fine in
          rw (same) (clean, kept ∙ url)
    ]

-- The start of an enrolled host takes the saved state, whatever the variable of the token says and
-- whatever the backend would answer: the enrollment is that of the saved config, the cache is the
-- saved one, and a CA is trusted as that cache says. The address of the backend is a checked one.
pub start_enrolled :
    (host : Host) (flags : Flags) (old : Config) (c : Client)
    → host.config ≡ some old
    → is_empty old.daemon_id ≡ false
    → run_daemon host flags ≡ inl c
    → SameIds old c.config
      × ((host.cache ≡ some c.cache)
          × ((check_api_url host c.config.api_url ≡ true)
              × (c.trust ≡ set_trust host.parse_key (cas c.cache).0 (cas c.cache).1 no_trust)))
unfolding new_client
start_enrolled host flags old c known has_id e =
    let v = run_daemon-Steps host flags c e in
    let (ids, (read, checked)) = loaded_ids host flags old c known v in
    let built = built_enrolled host flags c v (ground (arith, ids.1.0, has_id)) in
    rw (start_server-inl host v.built c v.served, built) (ids, (read, (checked, refl)))

-- The start of a host that is not enrolled lets nobody in before the first sync, whatever its cache
-- on disk says: no name has a principal and no CA is trusted. The address of the backend is a
-- checked one.
pub start_fresh :
    (host : Host) (flags : Flags) (old : Config) (c : Client)
    → host.config ≡ some old
    → is_empty old.daemon_id ≡ true
    → run_daemon host flags ≡ inl c
    → ((u : Bytes) → cert_principals c.cache u ≡ [])
      × (((now : ℕ) (wire : Bytes) → trusted_ca_wire now c.trust wire ≡ false)
          × (check_api_url host c.config.api_url ≡ true))
start_fresh host flags old c known no_id e =
    let v = run_daemon-Steps host flags c e in
    let (ids, (_, checked)) = loaded_ids host flags old c known v in
    let (clean, url) = built_fresh host flags c v (ground (arith, ids.1.0, no_id)) in
    rw (start_server-inl host v.built c v.served) (
      clean.1.1,
      (λ now wire. clean-trust host.parse_key v.built.cache now wire clean, rw (url) checked),
    )
