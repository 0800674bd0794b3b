-- ===== src/Sshd/Startup.antt =====
-- internal/sshd/server.go: the slots of connections that have not authenticated yet. A channel of
-- empty structs is the number of its elements.
pub mod Slots
pub mod Exact
mod Tests
use nokkud.Base.{
  ltb, leb, Dict, lookup, insert, erase, get_or, ℕ, Option, none, some, [], ◌+◌, ◌-◌, ◌==◌,
  if◌then◌else◌, nat_eq, bytes_eq,
}
use nokkud.Addr.{Addr, invalid, is_loopback, mask_64, unmap, addr_eq}

abbrev pub max_startups : ℕ
max_startups = 10

abbrev pub max_source_startups : ℕ
max_source_startups = 3

-- `startups`, `localStartups` and `sourceStartups` of the server.
pub record Startups : Type 0 where
  pub startups : ℕ
  pub local_startups : ℕ
  pub source_startups : Dict Addr ℕ

-- What `New` makes.
abbrev pub no_startups : Startups
no_startups = record { startups = 0; local_startups = 0; source_startups = [] }

-- Which of the two `release` functions was returned.
pub data Slot : Type 0 where
  local_slot : Slot
  source_slot : Addr → Slot

-- The source that a remote address counts for: the argument is what `netip.ParseAddrPort` gives.
unfoldable pub source_of : Option Addr → Addr
source_of none = invalid
source_of (some a) = unmap a

-- `s.sourceStartups[source]`.
unfoldable pub count_at : Addr → Dict Addr ℕ → ℕ
count_at source m = get_or (lookup source m) 0

acquire_source : Addr → Startups → Option (Slot × Startups)
unfolding count_at
acquire_source source s =
    if leb max_source_startups (count_at source s.source_startups)
    then none
    else if ltb s.startups max_startups
    then some (
      source_slot source,
      record s {
        startups = s.startups + 1;
        source_startups = insert source (count_at source s.source_startups + 1) s.source_startups;
      },
    )
    else none

-- `acquireStartup`.
unfoldable pub acquire_startup : Option Addr → Startups → Option (Slot × Startups)
unfolding source_of acquire_source
acquire_startup remote s =
    let source = source_of remote in
    if is_loopback source
    then (if ltb s.local_startups max_startups
        then some (local_slot, record s { local_startups = s.local_startups + 1 })
        else none)
    else acquire_source (mask_64 source) s

-- The receive of a `release`, from either channel.
unfoldable pub free_slot : Slot → Startups → Startups
free_slot local_slot s = record s { local_startups = s.local_startups - 1 }
free_slot (source_slot source) s = record s { startups = s.startups - 1 }

-- The rest of a `release`, under the lock.
unfoldable pub settle_source : Addr → Startups → Startups
unfolding count_at
settle_source source s =
    let left = count_at source s.source_startups - 1 in
    record s {
      source_startups =
          if left == 0
          then erase source (insert source left s.source_startups)
          else insert source left s.source_startups;
    }
