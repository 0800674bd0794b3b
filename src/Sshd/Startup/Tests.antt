-- ===== src/Sshd/Startup/Tests.antt =====
-- The theorem on the pre-auth slots at a run of four handshakes from one source, three at once.
use nokkud.Base.{lookup, insert, ℕ, refl, Option, none, some, [], ◌≡◌, ◌∷◌, nat_eq, bytes_eq}
use nokkud.Sshd.Startup.Exact.{Reach-IsExact}
use nokkud.Addr.{Addr, addr_beq, is_loopback, mask_64, unmap, v4, addr_eq}
use nokkud.Sshd.Startup.{Startups, source_slot, acquire_startup, count_at, source_of}
use nokkud.Sshd.Startup.Slots.{Sys, Reach, starts, start, next, IsExact}

abbrev remote : Option Addr
remote = some (v4 3221225985)

abbrev taken : ℕ → Startups
taken n = record { startups = n; local_startups = 0; source_startups = (v4 3221225985, n) ∷ [] }

abbrev full : Sys
full = record {
  pool = taken 3;
  held =
      source_slot (v4 3221225985) ∷ source_slot (v4 3221225985) ∷ source_slot (v4 3221225985) ∷ [];
  leaving = [];
}

full-Reach : Reach full
unfolding acquire_startup unmap is_loopback mask_64 lookup insert addr_beq count_at source_of
full-Reach =
    next
      (next (next start (starts remote (source_slot (v4 3221225985)) (taken 1) refl refl))
        (starts remote (source_slot (v4 3221225985)) (taken 2) refl refl))
      (starts remote (source_slot (v4 3221225985)) (taken 3) refl refl)

fourth_refused : acquire_startup remote full.pool ≡ none
unfolding acquire_startup unmap is_loopback mask_64 lookup insert addr_beq count_at source_of
fourth_refused = refl

Reach-IsExact_example : IsExact full
Reach-IsExact_example = Reach-IsExact full-Reach
