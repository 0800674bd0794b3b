-- ===== src/Recording/Pending/Whole.antt =====
-- What an upload of a finished recording gives the backend.
use mathlib.Core.Path.{subst}
use nokkud.Base.{
  is_empty, Bool-cases, Option-cases, length, Bytes, ℕ, suc, refl, sym, ap, inl, inr, none, List,
  [], arith, ◌+◌, ◌≤◌, ◌<◌, ◌≡◌, ◌∙◌, ◌⊎◌, ◌∷◌, ◌++◌, if◌then◌else◌,
}
use nokkud.Client.Sync.Applied.{answered}
use nokkud.Recording.Pending.{
  Errors, Header, Request, Source, chunk, final, meta_of, read_header, send_error, upload_end,
  upload_file, upload_reads, upload_stream,
}

-- The chunks of a file: the reads that give something.
abbrev pub chunks_of : List Bytes → List Bytes
chunks_of [] = []
chunks_of (p ∷ ps) = let rest = chunks_of ps in if is_empty p then rest else p ∷ rest

abbrev pub chunk_requests : List Bytes → List Request
chunk_requests [] = []
chunk_requests (p ∷ ps) = chunk p ∷ chunk_requests ps

module _ (E : Errors) where
  open E use {Err, code_of, invalid}

  upload_end-whole :
      (src : Source E) (n : ℕ)
      → (upload_end E src n).1 ≡ none
      → ((upload_end E src n).0 ≡ final ∷ []) × ((src.read_error ≡ none) × (src.answer ≡ none))
  unfolding upload_end
  upload_end-whole src n e = elim (Option-cases src.read_error) [
    | inr (err, a) ↦ absurd (ground arith)
    | inl a ↦ elim (Option-cases (send_error E src n)) [
      | inr (err, b) ↦ absurd (ground arith)
      | inl b ↦ (ground arith, (a, ground arith))
    ]
  ]

  upload_reads-whole :
      (src : Source E) (n : ℕ) (ps : List Bytes)
      → (upload_reads E src n ps).1 ≡ none
      → ((upload_reads E src n ps).0 ≡ chunk_requests (chunks_of ps) ++ (final ∷ []))
        × ((src.read_error ≡ none) × (src.answer ≡ none))
  unfolding upload_reads
  upload_reads-whole src n [] e = upload_end-whole src n e
  upload_reads-whole src n (p ∷ ps) e = elim (Bool-cases (is_empty p)) [
    | inl a ↦ ground (arith, upload_reads-whole src n ps)
    | inr a ↦ elim (Option-cases (send_error E src n)) [
      | inr (err, b) ↦ absurd (ground arith)
      | inl b ↦ ground (arith, upload_reads-whole src (n + 1) ps)
    ]
  ]

  send_error-none : (src : Source E) (n : ℕ) → send_error E src n ≡ none → src.send n ≡ none
  unfolding send_error
  send_error-none src n e = elim (Option-cases (src.send n)) [
    | inl a ↦ a
    | inr (err, a) ↦ absurd (ground arith)
  ]

  first_or_later : (n k : ℕ) → n ≤ k → (n ≡ k) ⊎ (n + 1 ≤ k)
  first_or_later n k h = ground arith

  -- The stream takes `count` messages from the n-th on.
  abbrev pub Takes : Source E → ℕ → ℕ → Type 0
  Takes src n count = (k : ℕ) → n ≤ k → k < n + count → src.send k ≡ none

  Takes-suc :
      (src : Source E) (n count : ℕ)
      → src.send n ≡ none
      → Takes src (n + 1) count
      → Takes src n (suc count)
  Takes-suc src n count e rest k low high = elim (first_or_later n k low) [
    | inl same ↦ subst (λ i. src.send i ≡ none) same e
    | inr later ↦ rest k (omega arith) (omega arith)
  ]

  upload_end-Takes :
      (src : Source E) (n : ℕ)
      → (upload_end E src n).1 ≡ none
      → Takes src n (length (upload_end E src n).0)
  unfolding upload_end
  upload_end-Takes src n e = elim (Option-cases src.read_error) [
    | inr (err, a) ↦ absurd (ground arith)
    | inl a ↦ elim (Option-cases (send_error E src n)) [
      | inr (err, b) ↦ absurd (ground arith)
      | inl b ↦
          rw (a, upload_end, b)
            (Takes-suc src n 0 (send_error-none src n b) (λ k low high. absurd (omega arith)))
    ]
  ]

  upload_reads-Takes :
      (src : Source E) (n : ℕ) (ps : List Bytes)
      → (upload_reads E src n ps).1 ≡ none
      → Takes src n (length (upload_reads E src n ps).0)
  unfolding upload_reads
  upload_reads-Takes src n [] e = upload_end-Takes src n e
  upload_reads-Takes src n (p ∷ ps) e = elim (Bool-cases (is_empty p)) [
    | inl a ↦ rw (a, upload_reads) (upload_reads-Takes src n ps (ground arith))
    | inr a ↦ elim (Option-cases (send_error E src n)) [
      | inr (err, b) ↦ absurd (ground arith)
      | inl b ↦
          rw (a, b, upload_reads)
            (Takes-suc src n (length (upload_reads E src (n + 1) ps).0) (send_error-none src n b)
              (upload_reads-Takes src (n + 1) ps (ground arith)))
    ]
  ]

  -- The backend has a whole recording: its stream took each of the messages, which are the metadata
  -- of the header, the content up to the end of the file, in order, and the final one, and it
  -- confirmed the end.
  pub record IsWhole (src : Source E) : Type 0 where
    pub hdr : Header
    pub header_read : read_header E src ≡ inl hdr
    pub sent :
        (upload_file E src).0
        ≡ meta_of E hdr ∷ (chunk_requests (chunks_of src.reads) ++ (final ∷ []))
    pub to_end : src.read_error ≡ none
    pub taken : Takes src 0 (length (upload_file E src).0)
    pub confirmed : src.answer ≡ none

  -- An upload of a finished recording without an error gave the backend the metadata of its header,
  -- all of its content up to the end of the file, in order, and the final message; the stream took
  -- each of these messages, and the backend confirmed the end.
  pub upload_file-IsWhole : (src : Source E) → (upload_file E src).1 ≡ none → IsWhole src
  unfolding upload_file upload_stream
  upload_file-IsWhole src e = go (read_header E src) refl
    where
      go : (h : Header ⊎ Err) → read_header E src ≡ h → IsWhole src
      go (inr err) d = absurd (ground arith)
      go (inl hdr) d = elim (Option-cases src.opened) [
        | inr (err, a) ↦ absurd (ground arith)
        | inl a ↦ elim (Option-cases src.stream) [
          | inr (err, b) ↦ absurd (ground arith)
          | inl b ↦ elim (Option-cases (send_error E src 0)) [
            | inr (err, c) ↦ absurd (ground arith)
            | inl c ↦
                let done : (upload_reads E src 1 src.reads).1 ≡ none = ground arith in
                let (same, (ended, answered)) = upload_reads-whole src 1 src.reads done in
                let some_sent : (upload_file E src).0
                    ≡ meta_of E hdr ∷ (upload_reads E src 1 src.reads).0 =
                  ground arith in
                record {
                  hdr = hdr;
                  header_read = d;
                  sent = some_sent ∙ ap (λ l. meta_of E hdr ∷ l) same;
                  to_end = ended;
                  taken =
                      subst (λ (l : List Request). Takes src 0 (length l)) (sym some_sent)
                        (Takes-suc src 0 (length (upload_reads E src 1 src.reads).0)
                          (send_error-none src 0 c) (upload_reads-Takes src 1 src.reads done));
                  confirmed = answered;
                }
          ]
        ]
      ]
