-- ===== src/Sshd/Startup/Exact.antt =====
-- The invariant of the pre-auth slots, and what it bounds.
use nokkud.Base.{
  Bool-cases, Dict, lookup, insert, lookup-insert, lookup-erase, ℕ, refl, ap, inl, inr, Option,
  some, List, arith, ◌+◌, ◌-◌, ◌<◌, ◌≡◌, ◌∙◌, ◌≢◌, ◌⊎◌, ◌∷◌, ◌++◌, ◌==◌, if◌then◌else◌, nat_eq,
  bytes_eq,
}
use nokkud.Sshd.Startup.{
  Slot, Startups, acquire_startup, count_at, free_slot, local_slot, max_source_startups,
  max_startups, settle_source, source_of, source_slot,
}
use nokkud.Addr.{Addr, addr_beq_iff, is_loopback, mask_64, addr_eq}
use nokkud.Sshd.Startup.Slots.{
  Sys, count, count-append, ends, ends_local, init, locals, locals-append, remotes, remotes-append,
  settles, slots_of, slots_of-append, starts, Reach, Step, next, IsExact, start,
}

count_at-insert :
    (b a : Addr) (n : ℕ) (m : Dict Addr ℕ)
    → count_at a (insert b n m) ≡ (if b == a then n else count_at a m)
unfolding count_at
count_at-insert b a n m = ground (arith, lookup-insert b a n m)

settled :
    (b a : Addr) (p : Startups)
    → count_at a (settle_source b p).source_startups
      ≡ (if b == a then count_at b p.source_startups - 1 else count_at a p.source_startups)
unfolding settle_source
settled b a p =
    let n = count_at b p.source_startups - 1 in
    ground (
      arith,
      lookup-insert b a n p.source_startups,
      lookup-erase b a (insert b n p.source_startups),
    )

settled_rest :
    (b : Addr) (p : Startups)
    → ((settle_source b p).local_startups ≡ p.local_startups)
      × ((settle_source b p).startups ≡ p.startups)
unfolding settle_source
settled_rest b p = (refl, refl)

settled_zero :
    (b a : Addr) (p : Startups)
    → lookup a p.source_startups ≢ some 0
    → lookup a (settle_source b p).source_startups ≢ some 0
unfolding settle_source
settled_zero b a p h z =
    let n = count_at b p.source_startups - 1 in
    ground (
      arith,
      h,
      lookup-insert b a n p.source_startups,
      lookup-erase b a (insert b n p.source_startups),
    )

abbrev Acquired : Startups → Slot → Startups → Type 0
Acquired s slot pool =
    ((slot ≡ local_slot)
      × (pool ≡ record s { local_startups = s.local_startups + 1 })
      × (s.local_startups < max_startups))
    ⊎ ((b : Addr) × (slot ≡ source_slot b)
        × (pool ≡ record s {
          startups = s.startups + 1;
          source_startups = insert b (count_at b s.source_startups + 1) s.source_startups;
        })
        × (count_at b s.source_startups < max_source_startups)
        × (s.startups < max_startups))

acquire_startup-Acquired :
    (remote : Option Addr) (s : Startups) (slot : Slot) (pool : Startups)
    → acquire_startup remote s ≡ some (slot, pool)
    → Acquired s slot pool
unfolding acquire_startup
acquire_startup-Acquired remote s slot pool h = elim (Bool-cases (is_loopback (source_of remote))) [
  | inl e ↦ inl (ground arith)
  | inr e ↦ inr (mask_64 (source_of remote), ground arith, ground arith, ground arith, ground arith)
]

starts-IsExact :
    (s : Sys) (slot : Slot) (pool : Startups)
    → Acquired s.pool slot pool
    → IsExact s
    → IsExact (record s { pool = pool; held = slot ∷ s.held })
starts-IsExact s slot pool (inl (a, b, c)) v =
    rw (a, b)
      (record {
        local_is = ground arith;
        remote_is = v.remote_is;
        source_is = v.source_is;
        no_zero = v.no_zero;
        local_bound = ground arith;
        remote_bound = v.remote_bound;
        source_bound = v.source_bound;
      })
starts-IsExact s slot pool (inr (b, e, p, few, room)) v =
    rw (e, p)
      (record {
        local_is = v.local_is;
        remote_is = ground arith;
        source_is = λ a. ground (
          arith,
          v.source_is a,
          addr_beq_iff b a,
          count_at-insert b a (count_at b s.pool.source_startups + 1) s.pool.source_startups,
        );
        no_zero = λ a z. ground (
          arith,
          v.no_zero a,
          lookup-insert b a (count_at b s.pool.source_startups + 1) s.pool.source_startups,
        );
        local_bound = v.local_bound;
        remote_bound = ground arith;
        source_bound = λ a. ground (
          arith,
          v.source_bound a,
          count_at-insert b a (count_at b s.pool.source_startups + 1) s.pool.source_startups,
        );
      })

module _ (s : Sys) (v : IsExact s) where
  ends_local-IsExact :
      (xs ys : List Slot)
      → s.held ≡ xs ++ (local_slot ∷ ys)
      → IsExact (record s { pool = free_slot local_slot s.pool; held = xs ++ ys })
  unfolding free_slot
  ends_local-IsExact xs ys e =
      let m = locals-append xs (local_slot ∷ ys) in
      let n = locals-append xs ys in
      let r = remotes-append xs (local_slot ∷ ys) in
      record {
        local_is = ground (arith, v.local_is, ap locals e);
        remote_is = ground (arith, v.remote_is, ap remotes e, remotes-append xs ys);
        source_is = λ a. ground (
          arith,
          v.source_is a,
          ap (slots_of a) e,
          slots_of-append a xs (local_slot ∷ ys),
          slots_of-append a xs ys,
        );
        no_zero = v.no_zero;
        local_bound = omega (arith, v.local_bound);
        remote_bound = v.remote_bound;
        source_bound = v.source_bound;
      }

  ends-IsExact :
      (b : Addr) (xs ys : List Slot)
      → s.held ≡ xs ++ (source_slot b ∷ ys)
      → IsExact (record {
        pool = free_slot (source_slot b) s.pool;
        held = xs ++ ys;
        leaving = b ∷ s.leaving;
      })
  unfolding free_slot
  ends-IsExact b xs ys e = record {
    local_is = omega (
      arith,
      v.local_is,
      ap locals e,
      locals-append xs (source_slot b ∷ ys),
      locals-append xs ys,
    );
    remote_is = omega (
      arith,
      v.remote_is,
      ap remotes e,
      remotes-append xs (source_slot b ∷ ys),
      remotes-append xs ys,
    );
    source_is = λ a. omega (
      arith,
      v.source_is a,
      ap (slots_of a) e,
      slots_of-append a xs (source_slot b ∷ ys),
      slots_of-append a xs ys,
    );
    no_zero = v.no_zero;
    local_bound = v.local_bound;
    remote_bound = omega (arith, v.remote_bound);
    source_bound = v.source_bound;
  }

  settles-IsExact :
      (b : Addr) (xs ys : List Addr)
      → s.leaving ≡ xs ++ (b ∷ ys)
      → IsExact (record s { pool = settle_source b s.pool; leaving = xs ++ ys })
  settles-IsExact b xs ys e =
      let rest = settled_rest b s.pool in
      record {
        local_is = rest.0 ∙ v.local_is;
        remote_is = rest.1 ∙ v.remote_is;
        source_is = λ a. ground (
          arith,
          v.source_is a,
          v.source_is b,
          settled b a s.pool,
          ap (count a) e,
          addr_beq_iff b a,
          count-append a xs (b ∷ ys),
          count-append a xs ys,
        );
        no_zero = λ a. settled_zero b a s.pool (v.no_zero a);
        local_bound = omega (arith, rest.0, v.local_bound);
        remote_bound = omega (arith, rest.1, v.remote_bound);
        source_bound = λ a. ground (arith, v.source_bound a, v.source_bound b, settled b a s.pool);
      }

Step-IsExact : {s t : Sys} → Step s t → IsExact s → IsExact t
Step-IsExact {s} (starts remote slot pool h e) v =
    rw e (starts-IsExact s slot pool (acquire_startup-Acquired remote s.pool slot pool h) v)
Step-IsExact {s} (ends_local xs ys h e) v = rw e (ends_local-IsExact s v xs ys h)
Step-IsExact {s} (ends b xs ys h e) v = rw e (ends-IsExact s v b xs ys h)
Step-IsExact {s} (settles b xs ys h e) v = rw e (settles-IsExact s v b xs ys h)

init-IsExact : IsExact init
unfolding count_at lookup
init-IsExact = record {
  local_is = refl;
  remote_is = refl;
  source_is = λ a. refl;
  no_zero = λ a h. cc;
  local_bound = omega arith;
  remote_bound = omega arith;
  source_bound = λ a. omega arith;
}

-- However handshakes start, end and settle, the counters stay exact: each channel counts its
-- running handshakes and each table entry those of its source that run or are about to settle,
-- at most ten from loopback, ten from elsewhere and three from one source, and no entry stays
-- behind at zero.
pub Reach-IsExact : {s : Sys} → Reach s → IsExact s
Reach-IsExact start = init-IsExact
Reach-IsExact (next r st) = Step-IsExact st (Reach-IsExact r)
