-- ===== src/Sshd/Trust/Exact.antt =====
-- Which keys are trusted after a sync.
use nokkud.Base.{
  is_empty, ltb, Option-cases, Bytes, Dict, lookup, insert, lookup-insert, ℕ, refl, inl, inr, Bool,
  false, not, Option, none, some, List, [], arith, ◌≡◌, ◌≢◌, ◌⊎◌, ◌&&◌, ◌||◌, ◌∷◌, ◌==◌,
  if◌then◌else◌, nat_eq, bytes_eq,
}
use nokkud.State.Cache.{RetiredCaKey}
use nokkud.Sshd.Trust.{Trust, trusted_ca_wire, add_retired, set_trust}

module _ (parse : Bytes → Option Bytes) (w : Bytes) where
  -- The end of trust that the last retired key with the wire form `w` states.
  abbrev pub last_until : List RetiredCaKey → Option ℕ
  last_until [] = none
  last_until (k ∷ ks) = elim (last_until ks) [
    | some until ↦ some until
    | none ↦ elim (parse k.public_key) [
      | none ↦ none
      | some wire ↦ if wire == w then some k.trusted_until else none
    ]
  ]

  abbrev pub is_before : ℕ → Option ℕ → Bool
  is_before now none = false
  is_before now (some until) = ltb now until

  abbrev pub is_wire : Option Bytes → Bool
  is_wire none = false
  is_wire (some wire) = wire == w

  lookup-add_retired :
      (m : Dict Bytes ℕ) (ks : List RetiredCaKey)
      → lookup w (add_retired parse m ks)
        ≡ elim (last_until ks) [ none ↦ lookup w m | some until ↦ some until ]
  unfolding add_retired
  lookup-add_retired m [] = refl
  lookup-add_retired m (k ∷ ks) = elim (Option-cases (parse k.public_key)) [
    | inl e ↦ ground (arith, lookup-add_retired m ks)
    | inr (v, e) ↦ ground (
      arith,
      lookup-add_retired (insert v k.trusted_until m) ks,
      lookup-insert v w k.trusted_until m,
    )
  ]

  -- After an answer of the backend whose active key is empty or readable, a CA is trusted exactly
  -- if it is the active one, or a retired one whose time is not over; nothing of the previous
  -- trust is left.
  pub set_trust_exact :
      (active : Bytes) (retired : List RetiredCaKey) (old : Trust) (now : ℕ)
      → (active ≡ []) ⊎ (parse active ≢ none)
      → trusted_ca_wire now (set_trust parse active retired old) w
        ≡ ((not (is_empty active) && is_wire (parse active)) || is_before now (last_until retired))
  unfolding set_trust trusted_ca_wire lookup insert
  set_trust_exact [] retired old now h = ground (arith, lookup-add_retired [] retired)
  set_trust_exact (a ∷ cs) retired old now h = elim (Option-cases (parse (a ∷ cs))) [
    | inl e ↦ ground arith
    | inr (v, e) ↦ ground (arith, lookup-add_retired [] retired)
  ]

  -- An active key that is not empty and cannot be read changes nothing.
  pub set_trust_unreadable :
      (active : Bytes) (retired : List RetiredCaKey) (old : Trust)
      → active ≢ []
      → parse active ≡ none
      → set_trust parse active retired old ≡ old
  unfolding set_trust
  set_trust_unreadable [] retired old h e = absurd (h refl)
  set_trust_unreadable (a ∷ cs) retired old h e = ground arith
