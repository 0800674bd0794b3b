-- ===== src/Sshd/Startup/Slots.antt =====
-- The pre-auth slots under every interleaving of handshakes that start and end.
use nokkud.Base.{
  lookup, ℕ, suc, Option, some, List, [], arith, ◌+◌, ◌≤◌, ◌≡◌, ◌≢◌, ◌∷◌, ◌++◌, ◌==◌, if◌then◌else◌,
  nat_eq, bytes_eq,
}
use nokkud.Addr.{Addr, addr_eq}
use nokkud.Sshd.Startup.{
  Slot, Startups, acquire_startup, count_at, free_slot, local_slot, max_source_startups,
  max_startups, no_startups, settle_source, source_slot,
}

-- The server with its running handshakes: `held` are the slots of handshakes that run, `leaving`
-- the sources of those that have given their slot back and not yet taken the lock.
pub record Sys : Type 0 where
  pub pool : Startups
  pub held : List Slot
  pub leaving : List Addr

abbrev pub init : Sys
init = record { pool = no_startups; held = []; leaving = [] }

pub data Step (s t : Sys) : Type 0 where
  starts :
      (remote : Option Addr) (slot : Slot) (pool : Startups)
      → acquire_startup remote s.pool ≡ some (slot, pool)
      → t ≡ record s { pool = pool; held = slot ∷ s.held }
      → Step s t
  ends_local :
      (xs ys : List Slot)
      → s.held ≡ xs ++ (local_slot ∷ ys)
      → t ≡ record s { pool = free_slot local_slot s.pool; held = xs ++ ys }
      → Step s t
  ends :
      (source : Addr) (xs ys : List Slot)
      → s.held ≡ xs ++ (source_slot source ∷ ys)
      → t ≡ record {
        pool = free_slot (source_slot source) s.pool;
        held = xs ++ ys;
        leaving = source ∷ s.leaving;
      }
      → Step s t
  settles :
      (source : Addr) (xs ys : List Addr)
      → s.leaving ≡ xs ++ (source ∷ ys)
      → t ≡ record s { pool = settle_source source s.pool; leaving = xs ++ ys }
      → Step s t

pub data Reach : Sys → Type 0 where
  start : Reach init
  next : {s t : Sys} → Reach s → Step s t → Reach t

-- How many of the slots are local, from a source, from this source.
abbrev pub locals : List Slot → ℕ
locals [] = 0
locals (local_slot ∷ l) = suc (locals l)
locals (source_slot a ∷ l) = locals l

abbrev pub remotes : List Slot → ℕ
remotes [] = 0
remotes (local_slot ∷ l) = remotes l
remotes (source_slot a ∷ l) = suc (remotes l)

abbrev pub slots_of : Addr → List Slot → ℕ
slots_of a [] = 0
slots_of a (local_slot ∷ l) = slots_of a l
slots_of a (source_slot b ∷ l) = (if b == a then 1 else 0) + slots_of a l

abbrev pub count : Addr → List Addr → ℕ
count a [] = 0
count a (b ∷ l) = (if b == a then 1 else 0) + count a l

pub locals-append : (xs ys : List Slot) → locals (xs ++ ys) ≡ locals xs + locals ys
locals-append [] ys = omega arith
locals-append (local_slot ∷ xs) ys = omega (arith, locals-append xs ys)
locals-append (source_slot a ∷ xs) ys = locals-append xs ys

pub remotes-append : (xs ys : List Slot) → remotes (xs ++ ys) ≡ remotes xs + remotes ys
remotes-append [] ys = omega arith
remotes-append (local_slot ∷ xs) ys = remotes-append xs ys
remotes-append (source_slot a ∷ xs) ys = omega (arith, remotes-append xs ys)

pub slots_of-append :
    (a : Addr) (xs ys : List Slot) → slots_of a (xs ++ ys) ≡ slots_of a xs + slots_of a ys
slots_of-append a [] ys = omega arith
slots_of-append a (local_slot ∷ xs) ys = slots_of-append a xs ys
slots_of-append a (source_slot b ∷ xs) ys = omega (arith, slots_of-append a xs ys)

pub count-append : (a : Addr) (xs ys : List Addr) → count a (xs ++ ys) ≡ count a xs + count a ys
count-append a [] ys = omega arith
count-append a (b ∷ xs) ys = omega (arith, count-append a xs ys)

-- The counters are exact: each channel holds its handshakes, and the table has an entry for a
-- source exactly if a handshake of it runs or is about to be settled.
pub record IsExact (s : Sys) : Type 0 where
  pub local_is : s.pool.local_startups ≡ locals s.held
  pub remote_is : s.pool.startups ≡ remotes s.held
  pub source_is :
      (a : Addr) → count_at a s.pool.source_startups ≡ slots_of a s.held + count a s.leaving
  pub no_zero : (a : Addr) → lookup a s.pool.source_startups ≢ some 0
  pub local_bound : s.pool.local_startups ≤ max_startups
  pub remote_bound : s.pool.startups ≤ max_startups
  pub source_bound : (a : Addr) → count_at a s.pool.source_startups ≤ max_source_startups
