-- ===== src/Recording/Pending/Settled.antt =====
-- What an upload of finished recordings removes.
use nokkud.Base.{
  Bool-cases, Option-cases, All, Bytes, refl, ap, inl, inr, Bool, true, false, Option, none, some,
  List, [], arith, ◌≡◌, ◌∙◌, ◌≢◌, ◌⊎◌, ◌∷◌, ◌++◌, if◌then◌else◌,
}
use nokkud.Recording.Pending.{Errors, Source, real_error, upload_file, upload_pending}
use nokkud.Recording.Pending.Whole.{IsWhole, upload_file-IsWhole}

abbrev pub inactive : (Bytes → Bool) → List Bytes → List Bytes
inactive active [] = []
inactive active (p ∷ ps) = let rest = inactive active ps in if active p then rest else p ∷ rest

module _ (E : Errors) where
  open E use {Err, code_of, invalid}

  -- A file that the backend has, or that it refuses for good: the error of its upload has the code
  -- InvalidArgument.
  abbrev pub IsSettled : (Bytes → Source E) → Bytes → Type 0
  IsSettled source path =
      IsWhole E (source path)
      ⊎ ((err : Err) × (((upload_file E (source path)).1 ≡ some err) × (code_of err ≡ 3)))

  settled :
      (source : Bytes → Source E) (path : Bytes)
      → real_error E (upload_file E (source path)).1 ≡ none
      → IsSettled source path
  unfolding real_error
  settled source path e = elim (Option-cases (upload_file E (source path)).1) [
    | inl a ↦ inl (upload_file-IsWhole E (source path) a)
    | inr (err, a) ↦ inr (err, (a, ground arith))
  ]

  failed :
      (source : Bytes → Source E) (path : Bytes) (err : Err)
      → real_error E (upload_file E (source path)).1 ≡ some err
      → ((upload_file E (source path)).1 ≡ some err) × (code_of err ≢ 3)
  unfolding real_error
  failed source path err e = elim (Option-cases (upload_file E (source path)).1) [
    | inl a ↦ absurd (ground arith)
    | inr (err', a) ↦ (ground arith, ground arith)
  ]

  -- Why it stops.
  abbrev pub Stop : (Bytes → Bool) → (Bytes → Source E) → List Bytes → Option (Bytes × Err) → Type 0
  Stop active source rest none = rest ≡ []
  Stop active source rest (some (path, err)) =
      (later : List Bytes) × ((rest ≡ path ∷ later)
        × ((active path ≡ false)
            × (((upload_file E (source path)).1 ≡ some err) × (code_of err ≢ 3))))

  abbrev pub Stops :
      (Bytes → Bool) → (Bytes → Source E) → List Bytes → List Bytes × Option (Bytes × Err) → Type 0
  Stops active source paths (removed, err) =
      (front : List Bytes) × ((rest : List Bytes) × ((paths ≡ front ++ rest)
          × ((removed ≡ inactive active front)
              × (All (IsSettled source) removed × Stop active source rest err))))

  Stops-active :
      (active : Bytes → Bool) (source : Bytes → Source E) (p : Bytes) (paths : List Bytes)
      (r : List Bytes × Option (Bytes × Err))
      → active p ≡ true
      → Stops active source paths r
      → Stops active source (p ∷ paths) r
  Stops-active active source p paths (removed, err) a (front, (rest, (parts, (same, more)))) =
      (p ∷ front, (rest, (ap (λ l. p ∷ l) parts, (same ∙ ground arith, more))))

  Stops-settled :
      (active : Bytes → Bool) (source : Bytes → Source E) (p : Bytes) (paths : List Bytes)
      (r : List Bytes × Option (Bytes × Err))
      → active p ≡ false
      → IsSettled source p
      → Stops active source paths r
      → Stops active source (p ∷ paths) (p ∷ r.0, r.1)
  Stops-settled active source p paths (removed, err) a d
        (front, (rest, (parts, (same, (each, stop))))) =
      (p ∷ front, (rest, (ap (λ l. p ∷ l) parts, (ground (arith, same), ((d, each), stop)))))

  -- The files that `UploadPending` removes are, in order, those of a first part of the list that
  -- nobody writes or uploads, and each of them is in the backend or refused by it for good. It ends
  -- with the list, or it stops at a file that is not active and returns the error of its upload,
  -- whose code is not InvalidArgument.
  pub upload_pending-Stops :
      (active : Bytes → Bool) (source : Bytes → Source E) (paths : List Bytes)
      → Stops active source paths (upload_pending E active source paths)
  unfolding upload_pending
  upload_pending-Stops active source [] = ([], ([], (refl, (refl, (tt, refl)))))
  upload_pending-Stops active source (p ∷ paths) = elim (Bool-cases (active p)) [
    | inl a ↦ rw (a) (
        Stops-active active source p paths (upload_pending E active source paths) a
          (upload_pending-Stops active source paths))
    | inr a ↦ elim (Option-cases (real_error E (upload_file E (source p)).1)) [
      | inl d ↦
          rw (a, d)
            (Stops-settled active source p paths (upload_pending E active source paths) a
              (settled source p d) (upload_pending-Stops active source paths))
      | inr (err, d) ↦
          rw (a, d)
            ([], (p ∷ paths, (refl, (refl, (tt, (paths, (refl, (a, failed source p err d))))))))
    ]
  ]
