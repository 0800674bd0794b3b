-- ===== src/Recording/Retention/Space.antt =====
-- The space that is left to recordings, and which go first.
use mathlib.Core.List.{Permᴰ}
use mathlib.Core.List.Permᴰ.{nil, cons, swap, trans}
use nokkud.Base.{
  ltb, Bool-cases, All, Bytes, ℕ, refl, sym, inl, inr, Bool, List, [], arith, ◌-◌, ◌≤◌, ◌≡◌, ◌∙◌,
  ◌∷◌,
}
use nokkud.Recording.Retention.{
  FileInfo, Listing, entries, missing, unreadable, enforce_retention, evict, max_total_space, scan,
  total_size,
}

total_size-perm : {xs ys : List FileInfo} → Permᴰ xs ys → total_size xs ≡ total_size ys
total_size-perm nil = refl
total_size-perm (cons e p) = ground (arith, total_size-perm p)
total_size-perm (swap e f) = ground arith
total_size-perm (trans p q) = total_size-perm p ∙ total_size-perm q

evict-space :
    (total : ℕ) (fs : List FileInfo)
    → total ≡ total_size fs
    → total_size (evict total fs).1 ≤ max_total_space
unfolding evict
evict-space total [] h = omega arith
evict-space total (f ∷ fs) h = ground (arith, evict-space (total - f.size) fs)

-- The times of a list do not decrease.
abbrev pub IsOrdered : List FileInfo → Type 0
IsOrdered [] = Unit {0}
IsOrdered (f ∷ fs) = All (λ g. f.mod_time ≤ g.mod_time) fs × IsOrdered fs

pub evict-All :
    (P : FileInfo → Type 0) (total : ℕ) (fs : List FileInfo)
    → All P fs
    → All P (evict total fs).0 × All P (evict total fs).1
unfolding evict
evict-All P total [] h = (tt, tt)
evict-All P total (f ∷ fs) h = elim (Bool-cases (ltb max_total_space total)) [
  | inl e ↦ let (a, b) = evict-All P (total - f.size) fs h.1 in rw (e, evict) ((h.0, a), b)
  | inr e ↦ rw (e, evict) (tt, h)
]

evict-ordered :
    (total : ℕ) (fs : List FileInfo)
    → IsOrdered fs
    → All (λ f. All (λ g. f.mod_time ≤ g.mod_time) (evict total fs).1) (evict total fs).0
unfolding evict
evict-ordered total [] h = tt
evict-ordered total (f ∷ fs) h = elim (Bool-cases (ltb max_total_space total)) [
  | inl e ↦
      rw (e, evict)
        (
          (evict-All (λ g. f.mod_time ≤ g.mod_time) (total - f.size) fs h.0).1,
          evict-ordered (total - f.size) fs h.1,
        )
  | inr e ↦ rw (e, evict) tt
]

module _ (sort : List FileInfo → List FileInfo) (active : Bytes → Bool) (cutoff : ℕ)
    (l : Listing) where
  -- If sorting only reorders, the finished recordings that stay take at most a gigabyte.
  pub enforce_retention_space :
      ((fs : List FileInfo) → Permᴰ (sort fs) fs)
      → total_size (enforce_retention sort active cutoff l).kept ≤ max_total_space
  unfolding enforce_retention
  enforce_retention_space p = go l
    where
      go :
          (l : Listing) → total_size (enforce_retention sort active cutoff l).kept ≤ max_total_space
      go missing = omega arith
      go unreadable = omega arith
      go (entries es) =
          let kept = (scan active cutoff es).0 in
          evict-space (total_size kept) (sort kept) (sym (total_size-perm (p kept)))

  -- If sorting orders by time, no recording that is dropped for space is newer than one that stays.
  pub enforce_retention_oldest :
      ((fs : List FileInfo) → IsOrdered (sort fs))
      → All
          (λ f. All (λ g. f.mod_time ≤ g.mod_time) (enforce_retention sort active cutoff l).kept)
          (enforce_retention sort active cutoff l).evicted
  unfolding enforce_retention
  enforce_retention_oldest o = go l
    where
      go :
          (l : Listing)
          → All
              (λ f.
                All (λ g. f.mod_time ≤ g.mod_time) (enforce_retention sort active cutoff l).kept)
              (enforce_retention sort active cutoff l).evicted
      go missing = tt
      go unreadable = tt
      go (entries es) =
          let kept = (scan active cutoff es).0 in
          evict-ordered (total_size kept) (sort kept) (o kept)
