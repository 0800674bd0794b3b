-- ===== src/Sshd/Trust.antt =====
-- internal/sshd/auth.go: the CA keys that logins may be signed by. `ssh.ParseAuthorizedKey` is a
-- parameter: it gives the wire form of a key, or fails.
pub mod Exact
use nokkud.Base.{
  is_empty, ltb, Bytes, Dict, lookup, insert, is_some, ℕ, Bool, true, false, Option, none, some,
  List, [], ◌∷◌, if◌then◌else◌, nat_eq, bytes_eq,
}
use nokkud.State.Cache.{RetiredCaKey}

-- The `trustedCAs` and `retiredCAs` of the server.
pub record Trust : Type 0 where
  pub trusted_cas : Dict Bytes (Unit {0})
  pub retired_cas : Dict Bytes ℕ

-- What `New` starts with: the maps are nil.
abbrev pub no_trust : Trust
no_trust = record { trusted_cas = []; retired_cas = [] }

-- `trustedCAWire`, at the time `now`.
unfoldable pub trusted_ca_wire : ℕ → Trust → Bytes → Bool
trusted_ca_wire now t wire =
    if is_some (lookup wire t.trusted_cas)
    then true
    else elim (lookup wire t.retired_cas) [ none ↦ false | some until ↦ ltb now until ]

module _ (parse : Bytes → Option Bytes) where
  -- The loop over the retired keys; one that does not parse is skipped.
  unfoldable pub add_retired : Dict Bytes ℕ → List RetiredCaKey → Dict Bytes ℕ
  add_retired retired [] = retired
  add_retired retired (k ∷ ks) =
      add_retired
        (elim (parse k.public_key) [
          | none ↦ retired
          | some wire ↦ insert wire k.trusted_until retired
        ])
        ks

  -- `SetTrust`.
  unfoldable pub set_trust : Bytes → List RetiredCaKey → Trust → Trust
  set_trust active retired_keys t =
      if is_empty active
      then record { trusted_cas = []; retired_cas = add_retired [] retired_keys }
      else elim (parse active) [
        | none ↦ t
        | some wire ↦ record {
          trusted_cas = insert wire tt [];
          retired_cas = add_retired [] retired_keys;
        }
      ]
