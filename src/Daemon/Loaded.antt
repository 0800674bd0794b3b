-- ===== src/Daemon/Loaded.antt =====
-- The address of the backend and its CA, after a start has loaded its state.
use nokkud.Base.{
  is_empty, Bool-cases, Option-cases, Bytes, bytes_beq_iff, refl, inl, inr, true, Option, none,
  some, [], arith, ◌≡◌, ◌⊎◌, ◌==◌, nat_eq, bytes_eq,
}
use nokkud.Client.Relay.{read}
use nokkud.State.Cache.{CacheJson}
use nokkud.Client.Sync.{Config}
use nokkud.Daemon.{
  Flags, Host, check_api_url, trim_slashes, with_api, load_state, save_state, with_ca_file,
  default_api_url,
}

-- The address that the flag names; the empty one is none.
abbrev pub given_address : Option Bytes → Bytes
given_address none = []
given_address (some api) = trim_slashes api

-- A saved address stays; or none was saved, the flag names none, and the address is the default one.
abbrev pub AddressKept : Option Bytes → Config → Config → Type 0
AddressKept api old config =
    (config.api_url ≡ old.api_url)
    ⊎ ((is_empty old.api_url ≡ true)
        × ((given_address api ≡ []) × (config.api_url ≡ default_api_url)))

-- Where the CA of the backend comes from: the file of the flag, or there is none, or it is the saved
-- one, for the address that it was saved with.
abbrev pub CaKept : Host → Flags → Config → Config → Type 0
CaKept host flags old config =
    (host.read_file flags.ca_file ≡ some config.api_ca)
    ⊎ ((config.api_ca ≡ []) ⊎ ((config.api_ca ≡ old.api_ca) × AddressKept flags.api old config))

-- The enrollment in a config.
abbrev pub SameIds : Config → Config → Type 0
SameIds old config =
    (config.target_id ≡ old.target_id)
    × ((config.daemon_id ≡ old.daemon_id) × (config.session_token ≡ old.session_token))

with_api-kept :
    (api : Option Bytes) (old : Config)
    → SameIds old (with_api api old)
      × (((with_api api old).api_ca ≡ [])
          ⊎ (((with_api api old).api_ca ≡ old.api_ca) × AddressKept api old (with_api api old)))
unfolding with_api
with_api-kept none old = elim (Bool-cases (is_empty old.api_url)) [
  | inl e ↦ (
    (ground arith, (ground arith, ground arith)),
    inr (ground arith, inr (e, (refl, ground arith))),
  )
  | inr e ↦ ((ground arith, (ground arith, ground arith)), inr (ground arith, inl (ground arith)))
]
with_api-kept (some api) old = elim (Bool-cases (trim_slashes api == old.api_url)) [
  | inr d ↦ ((ground arith, (ground arith, ground arith)), inl (ground arith))
  | inl d ↦ elim (Bool-cases (is_empty old.api_url)) [
    | inl e ↦ (
      (ground arith, (ground arith, ground arith)),
      inr (
        ground arith,
        inr (e, (ground (arith, bytes_beq_iff (trim_slashes api) old.api_url), ground arith)),
      ),
    )
    | inr e ↦ ((ground arith, (ground arith, ground arith)), inr (ground arith, inl (ground arith)))
  ]
]

pub record Ready (host : Host) (flags : Flags) (saved : Option Config) (cache : CacheJson)
    (config : Config) : Type 0 where
  pub old : Config
  pub cache_read : host.cache ≡ some cache
  pub config_read : host.config ≡ some old
  pub checked : check_api_url host config.api_url ≡ true
  pub same_ids : SameIds old config
  pub ca_kept : CaKept host flags old config
  pub saved_so : saved ≡ some config

with_ca_file-cases :
    (host : Host) (path : Bytes) (named ready : Config)
    → with_ca_file host path named ≡ some ready
    → (ready ≡ named)
      ⊎ ((ca : Bytes) × ((host.read_file path ≡ some ca) × (ready ≡ record named { api_ca = ca })))
unfolding with_ca_file
with_ca_file-cases host path named ready e = elim (Bool-cases (is_empty path)) [
  | inl d ↦ inl (ground arith)
  | inr d ↦ elim (Option-cases (host.read_file path)) [
    | inl r ↦ absurd (ground arith)
    | inr (ca, r) ↦ elim (Bool-cases (host.is_bundle ca)) [
      | inl b ↦ inr (ca, (r, ground arith))
      | inr b ↦ absurd (ground arith)
    ]
  ]
]

load_state-steps :
    (host : Host) (flags : Flags) (saved : Option Config) (cache : CacheJson) (config : Config)
    → load_state host flags ≡ (saved, inl (cache, config))
    → (old : Config) × ((host.cache ≡ some cache)
        × ((host.config ≡ some old)
            × ((check_api_url host (with_api flags.api old).api_url ≡ true)
                × ((with_ca_file host flags.ca_file (with_api flags.api old) ≡ some config)
                    × (saved ≡ some config)))))
unfolding load_state save_state
load_state-steps host flags saved cache config e = elim (Bool-cases host.verified) [
  | inr a ↦ absurd (ground arith)
  | inl a ↦ elim (Option-cases host.cache) [
    | inl b ↦ absurd (ground arith)
    | inr (cache', b) ↦ elim (Option-cases host.config) [
      | inl c ↦ absurd (ground arith)
      | inr (old, c) ↦ elim (Bool-cases (check_api_url host (with_api flags.api old).api_url)) [
        | inr d ↦ absurd (ground arith)
        | inl d ↦ elim (Option-cases (with_ca_file host flags.ca_file (with_api flags.api old))) [
          | inl f ↦ absurd (ground arith)
          | inr (ready, f) ↦ elim (Bool-cases host.config_saves) [
            | inr g ↦ absurd (ground arith)
            | inl g ↦ (old, (ground arith, (c, (d, (ground arith, ground arith)))))
          ]
        ]
      ]
    ]
  ]
]

-- The state that a start has loaded has a checked address of the backend, is saved, and keeps the
-- enrollment of the saved config. A CA of the backend is that of the flag's file, or there is none,
-- or it is the saved one and the address is the saved one too; or, if none was saved and the flag
-- names none, the default one.
pub load_state-Ready :
    (host : Host) (flags : Flags) (saved : Option Config) (cache : CacheJson) (config : Config)
    → load_state host flags ≡ (saved, inl (cache, config))
    → Ready host flags saved cache config
load_state-Ready host flags saved cache config e =
    go (load_state-steps host flags saved cache config e)
  where
    go :
        (old : Config) × ((host.cache ≡ some cache)
            × ((host.config ≡ some old)
                × ((check_api_url host (with_api flags.api old).api_url ≡ true)
                    × ((with_ca_file host flags.ca_file (with_api flags.api old) ≡ some config)
                        × (saved ≡ some config)))))
        → Ready host flags saved cache config
    go (old, (read, (known, (checked, (filed, stored))))) =
        elim (with_ca_file-cases host flags.ca_file (with_api flags.api old) config filed) [
          | inl same ↦ record {
            old = old;
            cache_read = read;
            config_read = known;
            checked = rw (same) checked;
            same_ids = rw (same) (with_api-kept flags.api old).0;
            ca_kept = inr (rw (same) (with_api-kept flags.api old).1);
            saved_so = stored;
          }
          | inr (ca, (found, same)) ↦ record {
            old = old;
            cache_read = read;
            config_read = known;
            checked = rw (same) checked;
            same_ids = rw (same) (with_api-kept flags.api old).0;
            ca_kept = inl (rw (same) found);
            saved_so = stored;
          }
        ]
