-- ===== src/Recording/Pending.antt =====
-- internal/recording/pending.go: the upload of finished recordings. Files, gzip, JSON, the backend's
-- stream and errors are arguments.
pub mod Whole
pub mod Settled
mod Tests
use nokkud.Base.{
  is_empty, Bytes, ℤ, pos, ltb_ℤ, ℕ, inl, inr, Bool, Option, none, some, List, [], ◌+◌, ◌⊎◌, ◌∷◌,
  ◌==◌, if◌then◌else◌, nat_eq, bytes_eq,
}

-- `header`, as far as an upload reads it.
pub record Header : Type 0 where
  pub session_id : Bytes
  pub user : Bytes
  pub principal : Bytes
  pub timestamp : ℤ

-- `UploadRecordingRequest` of a finished recording; the metadata has the time it began, in seconds.
pub data Request : Type 0 where
  meta : Bytes → Bytes → Bytes → Option ℤ → Request
  chunk : Bytes → Request
  final : Request

-- The Go errors of an upload: `connect.CodeOf`, `errors.Join`, which drops a nil, and `connect.NewError`
-- with `CodeInvalidArgument`.
pub record Errors : Type 1 where
  pub Err : Type 0
  pub code_of : Err → ℕ
  pub join : Err → Option Err → Err
  pub invalid : Err → Err

-- `connect.CodeInvalidArgument`.
abbrev pub code_invalid_argument : ℕ
code_invalid_argument = 3

module _ (E : Errors) where
  open E use {Err, code_of, join, invalid}

  -- What the upload of one file meets: the line with its header and how it unmarshals, the opening of
  -- the file and of the stream, what reading the file gives up to its end or to an error, the stream's
  -- answer to each `Send` by its number, and to `CloseAndReceive`. `none` is no error.
  pub record Source : Type 0 where
    pub line : Bytes ⊎ Err
    pub unmarshal : Bytes → Header ⊎ Err
    pub no_session_id : Err
    pub opened : Option Err
    pub stream : Option Err
    pub reads : List Bytes
    pub read_error : Option Err
    pub send : ℕ → Option Err
    pub answer : Option Err

  -- `readHeader`.
  unfoldable pub read_header : Source → Header ⊎ Err
  read_header src = elim src.line [
    | inr err ↦ inr err
    | inl line ↦ elim (src.unmarshal line) [
      | inr err ↦ inr err
      | inl hdr ↦ if is_empty hdr.session_id then inr src.no_session_id else inl hdr
    ]
  ]

  -- The `send` of `uploadFile`: the error, if the n-th message is not taken.
  unfoldable pub send_error : Source → ℕ → Option Err
  send_error src n = elim (src.send n) [ none ↦ none | some err ↦ some (join err src.answer) ]

  -- The end of `uploadFile`, with the messages that the stream took.
  unfoldable pub upload_end : Source → ℕ → List Request × Option Err
  upload_end src n = elim src.read_error [
    | some err ↦ ([], some err)
    | none ↦ elim (send_error src n) [ some err ↦ ([], some err) | none ↦ (final ∷ [], src.answer) ]
  ]

  -- The loop of `uploadFile` over what is read; an empty read sends nothing.
  unfoldable pub upload_reads : Source → ℕ → List Bytes → List Request × Option Err
  upload_reads src n [] = upload_end src n
  upload_reads src n (p ∷ ps) =
      let skipped = upload_reads src n ps in
      let (sent, err) = upload_reads src (n + 1) ps in
      if is_empty p
      then skipped
      else elim (send_error src n) [ some e ↦ ([], some e) | none ↦ (chunk p ∷ sent, err) ]

  -- The metadata of `uploadFile`.
  unfoldable pub meta_of : Header → Request
  meta_of hdr =
      meta hdr.session_id hdr.user hdr.principal
        (if ltb_ℤ (pos 0) hdr.timestamp then some hdr.timestamp else none)

  -- `uploadFile` with an open stream.
  unfoldable pub upload_stream : Source → Header → List Request × Option Err
  upload_stream src hdr = elim (send_error src 0) [
    | some err ↦ ([], some err)
    | none ↦ let (sent, err) = upload_reads src 1 src.reads in (meta_of hdr ∷ sent, err)
  ]

  -- `uploadFile`: the messages that the stream took, and the error.
  unfoldable pub upload_file : Source → List Request × Option Err
  upload_file src = elim (read_header src) [
    | inr err ↦ ([], some (invalid err))
    | inl hdr ↦ elim src.opened [
      | some err ↦ ([], some err)
      | none ↦ elim src.stream [ some err ↦ ([], some err) | none ↦ upload_stream src hdr ]
    ]
  ]

  -- The error of `uploadFile` that `UploadPending` returns.
  unfoldable pub real_error : Option Err → Option Err
  real_error none = none
  real_error (some err) = if code_of err == code_invalid_argument then none else some err

  -- `UploadPending` on the files that Glob gives: those that it removes, and the file that it stops
  -- at, with the error.
  unfoldable pub upload_pending :
      (Bytes → Bool) → (Bytes → Source) → List Bytes → List Bytes × Option (Bytes × Err)
  upload_pending active source [] = ([], none)
  upload_pending active source (path ∷ paths) =
      let (removed, err) = upload_pending active source paths in
      if active path then (removed, err) else elim (real_error (upload_file (source path)).1) [
        | some e ↦ ([], some (path, e))
        | none ↦ (path ∷ removed, err)
      ]
