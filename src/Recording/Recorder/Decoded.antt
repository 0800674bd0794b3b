-- ===== src/Recording/Recorder/Decoded.antt =====
-- What a reader of a recording decodes, where the JSON encoder replaces each byte that is part of no
-- character of UTF-8.
use mathlib.Core.Path.{subst}
use nokkud.Base.{
  ltb, Bool-cases, Bytes, codes, lookup, ℤ, ℕ, refl, sym, ap, inl, inr, Bool, true, false, some,
  List, [], append-nil, arith, ◌≡◌, ◌∙◌, ◌∷◌, ◌++◌, ◌==◌, if◌then◌else◌, nat_eq, bytes_eq,
}
use nokkud.Recording.Recorder.Exact.{
  given, event-full, event-room, record_data-keeps, close-closed, perform_all-closed,
  closed-close_locked, recorded_exactly,
}
use nokkud.Recording.Recorder.Boundary.{IsUtf8}
use nokkud.Recording.Recorder.Written.{IsStream, text}
use nokkud.Recording.Recorder.{
  CastEvent, Recorder, Call, close, close_locked, event, exit, flush_tick, input, itoa,
  new_recorder, output, perform, perform_all, partial_of, record_data, record_exit, record_input,
  record_output, record_resize, resize, tick,
}
use nokkud.Recording.Recorder.Valid.{IsValid, close_locked-IsValid, record_data-IsValid, resize_ne}

-- The data of the events of one type, each encoded and decoded, joined.
abbrev pub decoded : (Bytes → Bytes) → Bytes → List CastEvent → Bytes
decoded json k [] = []
decoded json k (e ∷ es) =
    if e.kind == k then json e.text ++ decoded json k es else decoded json k es

decoded-text :
    (json : Bytes → Bytes) (k : Bytes) (es : List CastEvent)
    → ((s : Bytes) → IsUtf8 s → json s ≡ s)
    → IsValid k es
    → decoded json k es ≡ text k es
decoded-text json k [] keeps v = refl
decoded-text json k (e ∷ es) keeps v = elim (Bool-cases (e.kind == k)) [
  | inl h ↦ ground (arith, h, keeps e.text (v.0 h), decoded-text json k es keeps v.1)
  | inr h ↦ ground (arith, h, decoded-text json k es keeps v.1)
]

record_exit-open :
    (status : ℤ) (r : Recorder)
    → r.closed ≡ false
    → record_exit status r ≡ record r { exit_code = some status }
unfolding record_exit
record_exit-open status r o = ground (arith, o)

flush_tick-open : (r : Recorder) → r.closed ≡ false → flush_tick r ≡ record r { dirty = false }
unfolding flush_tick
flush_tick-open r o = ground (arith, o)

module _ (k : Bytes) (h : IsStream k) where
  -- A closed recorder keeps its events.
  after-IsValid :
      (cs : List Call) (r s : Recorder)
      → r.closed ≡ false
      → s.closed ≡ true
      → s.cast ≡ (close_locked r).cast
      → IsUtf8 (partial_of k r)
      → IsValid k r.cast
      → IsValid k (close_locked (perform_all cs s)).cast
  after-IsValid cs r s o c e u v =
      let (c', e') = perform_all-closed cs s c in
      subst (IsValid k)
        (sym (ap (λ (x : Recorder). x.cast) (close-closed (perform_all cs s) c') ∙ (e' ∙ e)))
        (close_locked-IsValid k r h o u v)

  event-IsValid :
      (cs : List Call) (written : ℕ) (kind d : Bytes) (r : Recorder)
      → ((s : Recorder)
          → s.closed ≡ false
          → IsUtf8 (partial_of k s ++ given s.max_size k cs)
          → IsValid k s.cast
          → IsValid k (close_locked (perform_all cs s)).cast)
      → r.closed ≡ false
      → IsUtf8 (
          partial_of k r
          ++ (if ltb written r.max_size
              then (if kind == k then d else []) ++ given r.max_size k cs
              else []))
      → IsValid k r.cast
      → IsValid k (close_locked (perform_all cs (event written kind d r))).cast
  event-IsValid cs written kind d r go o u v = elim (Bool-cases (ltb written r.max_size)) [
    | inl f ↦
        let (c, m) = record_data-keeps kind d r in
        let (w, x) =
          record_data-IsValid k kind d (given r.max_size k cs) r
            (subst IsUtf8 (ground (arith, f)) u) v in
        rw (event-room written kind d r o f) (
          go (record_data kind d r) (c ∙ o)
            (subst (λ n. IsUtf8 (partial_of k (record_data kind d r) ++ given n k cs)) (sym m) x) w)
    | inr f ↦
        let (c, e) = event-full written kind d r o f in
        after-IsValid cs r (event written kind d r) o c e
          (subst IsUtf8 (ground (arith, f, append-nil (partial_of k r))) u) v
  ]

  perform_all-IsValid :
      (cs : List Call) (r : Recorder)
      → r.closed ≡ false
      → IsUtf8 (partial_of k r ++ given r.max_size k cs)
      → IsValid k r.cast
      → IsValid k (close_locked (perform_all cs r)).cast
  unfolding perform_all perform record_output record_input record_resize
  perform_all-IsValid [] r o u v =
      close_locked-IsValid k r h o (subst IsUtf8 (append-nil (partial_of k r)) u) v
  perform_all-IsValid (output written d ∷ cs) r o u v =
      event-IsValid cs written (codes "o") d r (perform_all-IsValid cs) o
        (subst IsUtf8 (ground arith) u) v
  perform_all-IsValid (input written d ∷ cs) r o u v =
      event-IsValid cs written (codes "i") d r (perform_all-IsValid cs) o
        (subst IsUtf8 (ground arith) u) v
  perform_all-IsValid (resize written w l ∷ cs) r o u v =
      event-IsValid cs written (codes "r") (itoa w ++ (b'x' ∷ itoa l)) r (perform_all-IsValid cs) o
        (subst IsUtf8 (ground (arith, resize_ne k h)) u) v
  perform_all-IsValid (exit status ∷ cs) r o u v =
      subst (λ s. IsValid k (close_locked (perform_all cs s)).cast)
        (sym (record_exit-open status r o))
        (perform_all-IsValid cs (record r { exit_code = some status }) o u v)
  perform_all-IsValid (tick ∷ cs) r o u v =
      subst (λ s. IsValid k (close_locked (perform_all cs s)).cast) (sym (flush_tick-open r o))
        (perform_all-IsValid cs (record r { dirty = false }) o u v)
  perform_all-IsValid (close ∷ cs) r o u v =
      after-IsValid cs r (close_locked r) o (closed-close_locked r) refl
        (subst IsUtf8 (append-nil (partial_of k r)) u) v

-- If the JSON library keeps texts of valid UTF-8, and all output that was given to a recording up to
-- its closing, or to the call that found the file full, is valid UTF-8 when joined: once the recording
-- is closed, a reader decodes from its output events all of that output, byte for byte and in order,
-- wherever the calls split a character; the same holds of the input events.
pub decoded_exactly :
    (json : Bytes → Bytes) (limit : ℕ) (sink : Bool) (k : Bytes) (cs : List Call)
    → ((s : Bytes) → IsUtf8 s → json s ≡ s)
    → IsStream k
    → IsUtf8 (given (new_recorder limit sink).max_size k cs)
    → decoded json k (close_locked (perform_all cs (new_recorder limit sink))).cast
      ≡ given (new_recorder limit sink).max_size k cs
unfolding new_recorder lookup
decoded_exactly json limit sink k cs keeps h u =
    decoded-text json k (close_locked (perform_all cs (new_recorder limit sink))).cast keeps
      (perform_all-IsValid k h cs (new_recorder limit sink) refl u tt)
    ∙ recorded_exactly limit sink k cs h
