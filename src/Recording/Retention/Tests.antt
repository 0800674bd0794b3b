-- ===== src/Recording/Retention/Tests.antt =====
-- Retention on a directory of three finished recordings and an active one.

use mathlib.Core.List.Permᴰ.{refl as perm_refl}
use nokkud.Base.{
  leb, leb→le, Bool-cases, All, Bytes, codes, bytes_beq, ℕ, refl, inl, inr, Bool, false, some, List,
  [], map, arith, ◌^◌, ◌≤◌, ◌<◌, ◌≡◌, ◌∷◌, ◌==◌, if◌then◌else◌, nat_eq, bytes_eq,
}
use nokkud.Recording.Retention.{
  DirEntry, FileInfo, entries, enforce_retention, evict, has_suffix, is_skipped, scan,
}
use nokkud.Recording.Retention.Space.{IsOrdered}
use nokkud.Recording.Retention.Spared.{IsFinished, IsNamed, enforce_retention_spares}

abbrev file : Bytes → ℕ → ℕ → DirEntry
file name mod_time size = record {
  name = name;
  is_dir = false;
  info = some (record { name = name; mod_time = mod_time; size = size });
}

abbrev listing : List DirEntry
listing =
    file (codes "a.cast.gz") 10 5
    ∷ file (codes "b.cast.gz") 60 (2 ^ 30)
    ∷ file (codes "c.cast.gz") 70 9
    ∷ file (codes "d.cast.gz") 80 9
    ∷ file (codes "notes") 1 1
    ∷ []

abbrev active : Bytes → Bool
active name = name == codes "d.cast.gz"

listing-IsNamed : All IsNamed listing
listing-IsNamed = (λ f e. cc, (λ f e. cc, (λ f e. cc, (λ f e. cc, (λ f e. cc, tt)))))

-- The listing is in the order of time already; on it, a sort changes nothing.
abbrev same : List FileInfo → List FileInfo
same fs = fs

dropped :
    let r = enforce_retention same active 50 (entries listing) in
    (map (λ (f : FileInfo). f.name) r.expired ≡ codes "a.cast.gz" ∷ [])
    × (map (λ (f : FileInfo). f.name) r.evicted ≡ codes "b.cast.gz" ∷ [])
    × (map (λ (f : FileInfo). f.name) r.kept ≡ codes "c.cast.gz" ∷ [])
unfolding enforce_retention scan evict is_skipped has_suffix codes bytes_beq
dropped = (refl, refl, refl)

enforce_retention_spares_example :
    let r = enforce_retention same active 50 (entries listing) in
    All (λ f. IsFinished active f × (f.mod_time < 50)) r.expired × All (IsFinished active) r.evicted
enforce_retention_spares_example =
    enforce_retention_spares same active 50 listing (λ fs. perm_refl fs) listing-IsNamed

-- An insertion sort by time.
place : FileInfo → List FileInfo → List FileInfo
place f [] = f ∷ []
place f (g ∷ fs) =
    let rest = place f fs in if leb f.mod_time g.mod_time then f ∷ g ∷ fs else g ∷ rest

sort : List FileInfo → List FileInfo
unfolding place
sort [] = []
sort (f ∷ fs) = place f (sort fs)

place-All :
    (P : FileInfo → Type 0) (f : FileInfo) (fs : List FileInfo)
    → P f
    → All P fs
    → All P (place f fs)
unfolding place
place-All P f [] p h = (p, tt)
place-All P f (g ∷ fs) p h = elim (Bool-cases (leb f.mod_time g.mod_time)) [
  | inl e ↦ rw (e, place) (p, h)
  | inr e ↦ rw (e, place) (h.0, place-All P f fs p h.1)
]

All-weaken :
    (a b : ℕ) (fs : List FileInfo)
    → a ≤ b
    → All (λ g. b ≤ g.mod_time) fs
    → All (λ g. a ≤ g.mod_time) fs
All-weaken a b [] le h = tt
All-weaken a b (g ∷ fs) le h = (omega arith, All-weaken a b fs le h.1)

place-IsOrdered : (f : FileInfo) (fs : List FileInfo) → IsOrdered fs → IsOrdered (place f fs)
unfolding place
place-IsOrdered f [] h = (tt, tt)
place-IsOrdered f (g ∷ fs) h = elim (Bool-cases (leb f.mod_time g.mod_time)) [
  | inl e ↦
      let le = leb→le f.mod_time g.mod_time e in
      rw (e, place) ((le, All-weaken f.mod_time g.mod_time fs le h.0), h)
  | inr e ↦
      rw (e, place)
        (place-All (λ x. g.mod_time ≤ x.mod_time) f fs (ground arith) h.0, place-IsOrdered f fs h.1)
]

sort-IsOrdered : (fs : List FileInfo) → IsOrdered (sort fs)
unfolding sort
sort-IsOrdered [] = tt
sort-IsOrdered (f ∷ fs) = place-IsOrdered f (sort fs) (sort-IsOrdered fs)
