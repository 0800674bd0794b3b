-- ===== src/Recording/Retention/Spared.antt =====
-- What retention never drops.
use mathlib.Core.List.{Permᴰ}
use mathlib.Core.List.Permᴰ.{symm}
use nokkud.Base.{
  ltb, ltb→lt, Bool-cases, Option-cases, All, Bytes, codes, ℕ, inl, inr, Bool, true, false, some,
  List, [], arith, All-perm, ◌<◌, ◌≡◌, ◌∷◌,
}
use nokkud.Recording.Retention.{
  DirEntry, FileInfo, entries, enforce_retention, has_suffix, is_skipped, scan, total_size,
}
use nokkud.Recording.Retention.Space.{evict-All}

-- A finished recording.
abbrev pub IsFinished : (Bytes → Bool) → FileInfo → Type 0
IsFinished active f = (active f.name ≡ false) × (has_suffix f.name (codes ".cast.gz") ≡ true)

-- `Info` gives the name of the entry.
abbrev pub IsNamed : DirEntry → Type 0
IsNamed e = (f : FileInfo) → e.info ≡ some f → f.name ≡ e.name

module _ (active : Bytes → Bool) (cutoff : ℕ) where
  not_skipped :
      (e : DirEntry) (f : FileInfo)
      → IsNamed e
      → is_skipped active e ≡ false
      → e.info ≡ some f
      → IsFinished active f
  unfolding is_skipped
  not_skipped e f n s i = rw (n f i) (ground arith)

  scan-All :
      (es : List DirEntry)
      → All IsNamed es
      → All (IsFinished active) (scan active cutoff es).0
        × All (λ f. IsFinished active f × (f.mod_time < cutoff)) (scan active cutoff es).1
  unfolding scan
  scan-All [] h = (tt, tt)
  scan-All (e ∷ es) h = elim (Bool-cases (is_skipped active e)) [
    | inl s ↦ rw (s, scan) (scan-All es h.1)
    | inr s ↦ elim (Option-cases e.info) [
      | inl i ↦ rw (s, i, scan) (scan-All es h.1)
      | inr (f, i) ↦
          let (a, b) = scan-All es h.1 in
          let fin = not_skipped e f h.0 s i in
          elim (Bool-cases (ltb f.mod_time cutoff)) [
            | inl t ↦ rw (s, i, t, scan) (a, ((fin, ltb→lt f.mod_time cutoff t), b))
            | inr t ↦ rw (s, i, t, scan) ((fin, a), b)
          ]
    ]
  ]

-- If sorting only reorders and `Info` gives an entry's own name: what is dropped are recordings, by
-- their suffix, that nobody is writing or uploading, and those that are dropped as expired are
-- older than the cutoff.
pub enforce_retention_spares :
    (sort : List FileInfo → List FileInfo) (active : Bytes → Bool) (cutoff : ℕ) (es : List DirEntry)
    → ((fs : List FileInfo) → Permᴰ (sort fs) fs)
    → All IsNamed es
    → let r = enforce_retention sort active cutoff (entries es) in
      All (λ f. IsFinished active f × (f.mod_time < cutoff)) r.expired
      × All (IsFinished active) r.evicted
unfolding enforce_retention
enforce_retention_spares sort active cutoff es p n =
    let (a, b) = scan-All active cutoff es n in
    let kept = (scan active cutoff es).0 in
    (
      b,
      (evict-All (IsFinished active) (total_size kept) (sort kept)
          (All-perm (IsFinished active) (symm (p kept)) a)).0,
    )
