-- ===== src/Recording/Retention.antt =====
-- internal/recording/retention.go: which recordings are dropped before a new one starts. The listing
-- of the directory, the map of active recordings and `slices.SortFunc`, which leaves the order of
-- equal times open, are arguments.
pub mod Space
pub mod Spared
mod Tests
use nokkud.Base.{
  ltb, leb, length, drop, Bytes, codes, ℕ, Bool, true, false, not, Option, none, some, List, [],
  ◌+◌, ◌-◌, ◌^◌, ◌&&◌, ◌||◌, ◌∷◌, ◌==◌, if◌then◌else◌, nat_eq, bytes_eq,
}

-- `maxTotalSpace`.
abbrev pub max_total_space : ℕ
max_total_space = 2 ^ 30

-- `os.FileInfo`, as far as it is read.
pub record FileInfo : Type 0 where
  pub name : Bytes
  pub mod_time : ℕ
  pub size : ℕ

-- `os.DirEntry`; `info` is `none` where `Info` fails.
pub record DirEntry : Type 0 where
  pub name : Bytes
  pub is_dir : Bool
  pub info : Option FileInfo

-- What `os.ReadDir` answers.
pub data Listing : Type 0 where
  missing unreadable : Listing
  entries : List DirEntry → Listing

-- `strings.HasSuffix`.
unfoldable pub has_suffix : Bytes → Bytes → Bool
has_suffix s suffix = leb (length suffix) (length s) && drop (length s - length suffix) s == suffix

abbrev pub total_size : List FileInfo → ℕ
total_size [] = 0
total_size (f ∷ fs) = f.size + total_size fs

-- The first test of the loop.
unfoldable pub is_skipped : (Bytes → Bool) → DirEntry → Bool
unfolding has_suffix
is_skipped active e = (e.is_dir || not (has_suffix e.name (codes ".cast.gz"))) || active e.name

-- The loop over the entries: the files that it keeps and those that it drops as expired.
unfoldable pub scan : (Bytes → Bool) → ℕ → List DirEntry → List FileInfo × List FileInfo
unfolding is_skipped
scan active cutoff [] = ([], [])
scan active cutoff (e ∷ es) =
    let (kept, expired) = scan active cutoff es in
    if is_skipped active e then (kept, expired) else elim e.info [
      | none ↦ (kept, expired)
      | some info ↦
          if ltb info.mod_time cutoff then (kept, info ∷ expired) else (info ∷ kept, expired)
    ]

-- The loop over the sorted files: those that it drops for space and those that stay.
unfoldable pub evict : ℕ → List FileInfo → List FileInfo × List FileInfo
evict total [] = ([], [])
evict total (f ∷ fs) =
    let (dropped, kept) = evict (total - f.size) fs in
    if ltb max_total_space total then (f ∷ dropped, kept) else ([], f ∷ fs)

-- What `enforceRetention` does: whether it succeeds, what it drops for each of the two reasons, and
-- which of the files that it has looked at stay.
pub record Retained : Type 0 where
  pub done : Bool
  pub expired : List FileInfo
  pub evicted : List FileInfo
  pub kept : List FileInfo

-- `enforceRetention`; `cutoff` is the time `maxAge` ago.
unfoldable pub enforce_retention :
    (List FileInfo → List FileInfo) → (Bytes → Bool) → ℕ → Listing → Retained
unfolding scan evict
enforce_retention sort active cutoff missing = record {
  done = true;
  expired = [];
  evicted = [];
  kept = [];
}
enforce_retention sort active cutoff unreadable = record {
  done = false;
  expired = [];
  evicted = [];
  kept = [];
}
enforce_retention sort active cutoff (entries es) =
    let (kept, expired) = scan active cutoff es in
    let (evicted, rest) = evict (total_size kept) (sort kept) in
    record { done = true; expired = expired; evicted = evicted; kept = rest }
