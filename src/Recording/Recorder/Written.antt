-- ===== src/Recording/Recorder/Written.antt =====
-- What the operations of a recorder write, type by type.
use nokkud.Base.{
  Bool-cases, Option-cases, length, take, drop, take-append-drop, ==→eq, Bytes, codes, bytes_beq,
  insert, lookup-insert, refl, inl, inr, true, false, List, [], append-nil, append_assoc, arith,
  ◌-◌, ◌≡◌, ◌⊎◌, ◌∷◌, ◌++◌, ◌==◌, if◌then◌else◌, nat_eq, bytes_eq,
}
use nokkud.Recording.Recorder.Utf8.{incomplete_tail}
use nokkud.Recording.Recorder.{
  CastEvent, Recorder, emit, partial_of, close_locked, emit_exit, emit_tail, record_data, itoa,
}

-- The data of the events of one type, joined.
abbrev pub text : Bytes → List CastEvent → Bytes
text k [] = []
text k (e ∷ es) = if e.kind == k then e.text ++ text k es else text k es

text-append : (k : Bytes) (xs ys : List CastEvent) → text k (xs ++ ys) ≡ text k xs ++ text k ys
text-append k [] ys = refl
text-append k (e ∷ xs) ys =
    ground (arith, text-append k xs ys, append_assoc e.text (text k xs) (text k ys))

-- What is written of a type, and what waits.
abbrev pub carried : Bytes → Recorder → Bytes
carried k r = text k r.cast ++ partial_of k r

text-emit :
    (k kind d : Bytes) (r : Recorder)
    → text k (emit kind d r).cast ≡ text k r.cast ++ (if kind == k then d else [])
unfolding emit
text-emit k kind d r =
    ground (arith, text-append k r.cast (record { kind = kind; text = d } ∷ []), append-nil d)

pub carried-record_data :
    (k kind d : Bytes) (r : Recorder)
    → carried k (record_data kind d r) ≡ carried k r ++ (if kind == k then d else [])
unfolding record_data
carried-record_data k kind d r = elim (Bool-cases (kind == k)) [
  | inl e ↦
      let whole = partial_of kind r ++ d in
      let cut = length whole - incomplete_tail whole in
      ground (
        arith,
        ==→eq kind k e,
        text-emit k kind (take cut whole)
            (record r { partial = insert kind (drop cut whole) r.partial }),
        lookup-insert kind k (drop cut whole) r.partial,
        take-append-drop cut whole,
        append_assoc (text k r.cast) (take cut whole) (drop cut whole),
        append_assoc (text k r.cast) (partial_of kind r) d,
      )
  | inr e ↦
      let whole = partial_of kind r ++ d in
      let cut = length whole - incomplete_tail whole in
      ground (
        arith,
        text-emit k kind (take cut whole)
            (record r { partial = insert kind (drop cut whole) r.partial }),
        lookup-insert kind k (drop cut whole) r.partial,
        append-nil (text k r.cast),
        append-nil (carried k r),
      )
]

-- The two types whose data `closeLocked` completes.
abbrev pub IsStream : Bytes → Type 0
IsStream k = (k ≡ codes "o") ⊎ (k ≡ codes "i")

text-emit_tail :
    (k kind : Bytes) (r : Recorder)
    → text k (emit_tail kind r).cast
      ≡ text k r.cast ++ (if kind == k then partial_of kind r else [])
unfolding emit_tail
text-emit_tail k kind r = go (partial_of kind r) refl
  where
    go :
        (p : Bytes)
        → partial_of kind r ≡ p
        → text k (emit_tail kind r).cast
          ≡ text k r.cast ++ (if kind == k then partial_of kind r else [])
    go [] e = ground (arith, append-nil (text k r.cast))
    go (c ∷ cs) e = ground (arith, text-emit k kind (partial_of kind r) r)

partial-emit_tail : (k kind : Bytes) (r : Recorder) → (emit_tail kind r).partial ≡ r.partial
unfolding emit_tail emit
partial-emit_tail k kind r = ground arith

text-emit_exit : (k : Bytes) (r : Recorder) → IsStream k → text k (emit_exit r).cast ≡ text k r.cast
unfolding emit_exit codes bytes_beq
text-emit_exit k r h = elim (Option-cases r.exit_code) [
  | inl e ↦ ground arith
  | inr (status, e) ↦
      ground (arith, text-emit k (codes "x") (itoa status) r, append-nil (text k r.cast))
]

pub cast-close_locked :
    (r : Recorder)
    → r.closed ≡ false
    → (close_locked r).cast
      ≡ (emit_exit
          (emit_tail (codes "i") (emit_tail (codes "o") (record r { closed = true })))).cast
unfolding close_locked
cast-close_locked r o = ground arith

pub text-close_locked :
    (k : Bytes) (r : Recorder)
    → IsStream k
    → r.closed ≡ false
    → text k (close_locked r).cast ≡ carried k r
unfolding codes bytes_beq
text-close_locked k r h o =
    let first = emit_tail (codes "o") (record r { closed = true }) in
    ground (
      arith,
      cast-close_locked r o,
      text-emit_exit k (emit_tail (codes "i") first) h,
      text-emit_tail k (codes "i") first,
      text-emit_tail k (codes "o") (record r { closed = true }),
      partial-emit_tail k (codes "o") (record r { closed = true }),
      append-nil (text k r.cast),
      append-nil (carried k r),
    )
