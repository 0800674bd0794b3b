-- ===== src/Recording/Recorder/Valid.antt =====
-- The events of a recording of valid UTF-8 are valid.
use mathlib.Core.Path.{subst}
use nokkud.Base.{
  is_empty, Bool-cases, Option-cases, length, take, drop, ==→eq, Bytes, codes, bytes_beq, insert,
  lookup-insert, ℕ, sym, ap, inl, inr, true, false, List, [], append_assoc, arith, ◌-◌, ◌≡◌, ◌∙◌,
  ◌∷◌, ◌++◌, ◌==◌, if◌then◌else◌, nat_eq, bytes_eq,
}
use nokkud.Recording.Recorder.Boundary.{IsUtf8}
use nokkud.Recording.Recorder.Cut.{cut-IsUtf8}
use nokkud.Recording.Recorder.Written.{IsStream, cast-close_locked}
use nokkud.Recording.Recorder.Utf8.{incomplete_tail}
use nokkud.Recording.Recorder.{
  CastEvent, Recorder, close_locked, emit, emit_exit, emit_tail, itoa, partial_of, record_data,
}

-- The events of one type are valid texts.
abbrev pub IsValid : Bytes → List CastEvent → Type 0
IsValid k [] = Unit
IsValid k (e ∷ es) = (e.kind == k ≡ true → IsUtf8 e.text) × IsValid k es

IsValid-append :
    (k : Bytes) (xs ys : List CastEvent) → IsValid k xs → IsValid k ys → IsValid k (xs ++ ys)
IsValid-append k [] ys v w = w
IsValid-append k (e ∷ xs) ys v w = (v.0, IsValid-append k xs ys v.1 w)

emit-IsValid :
    (k kind d : Bytes) (r : Recorder)
    → (kind == k ≡ true → IsUtf8 d)
    → IsValid k r.cast
    → IsValid k (emit kind d r).cast
unfolding emit
emit-IsValid k kind d r h v =
    IsValid-append k r.cast (record { kind = kind; text = d } ∷ []) v (h, tt)

emit_tail-IsValid :
    (k kind : Bytes) (r : Recorder)
    → IsUtf8 (partial_of k r)
    → IsValid k r.cast
    → IsValid k (emit_tail kind r).cast
unfolding emit_tail
emit_tail-IsValid k kind r u v = elim (Bool-cases (is_empty (partial_of kind r))) [
  | inl e ↦ rw (e) v
  | inr e ↦ rw (e) (
      emit-IsValid k kind (partial_of kind r) r
        (λ h. subst (λ j. IsUtf8 (partial_of j r)) (sym (==→eq kind k h)) u) v)
]

partial-emit_tail :
    (k kind : Bytes) (r : Recorder) → partial_of k (emit_tail kind r) ≡ partial_of k r
unfolding emit_tail emit
partial-emit_tail k kind r = ground arith

exit_ne : (k : Bytes) → IsStream k → codes "x" == k ≡ false
unfolding codes bytes_beq
exit_ne k h = ground arith

pub resize_ne : (k : Bytes) → IsStream k → codes "r" == k ≡ false
unfolding codes bytes_beq
resize_ne k h = ground arith

emit_exit-IsValid :
    (k : Bytes) (r : Recorder) → IsStream k → IsValid k r.cast → IsValid k (emit_exit r).cast
unfolding emit_exit
emit_exit-IsValid k r h v = elim (Option-cases r.exit_code) [
  | inl e ↦ rw (e) v
  | inr (status, e) ↦
      rw (e) (
        emit-IsValid k (codes "x") (itoa status) r (λ x. absurd (ground (arith, x, exit_ne k h))) v)
]

pub close_locked-IsValid :
    (k : Bytes) (r : Recorder)
    → IsStream k
    → r.closed ≡ false
    → IsUtf8 (partial_of k r)
    → IsValid k r.cast
    → IsValid k (close_locked r).cast
close_locked-IsValid k r h o u v =
    let first = emit_tail (codes "o") (record r { closed = true }) in
    rw (cast-close_locked r o) (
      emit_exit-IsValid k (emit_tail (codes "i") first) h (
        emit_tail-IsValid k (codes "i") first
          (subst IsUtf8 (sym (partial-emit_tail k (codes "o") (record r { closed = true }))) u)
          (emit_tail-IsValid k (codes "o") (record r { closed = true }) u v)))

-- What waits of a type after data of the same or of another type.
partial-record_data :
    (k kind d : Bytes) (r : Recorder)
    → partial_of k (record_data kind d r) ≡ (
        if kind == k
        then (let whole = partial_of kind r ++ d in
            drop (length whole - incomplete_tail whole) whole)
        else partial_of k r)
unfolding record_data emit
partial-record_data k kind d r =
    let whole = partial_of kind r ++ d in
    ground
      (arith, lookup-insert kind k (drop (length whole - incomplete_tail whole) whole) r.partial)

pub record_data-IsValid :
    (k kind d rest : Bytes) (r : Recorder)
    → IsUtf8 (partial_of k r ++ ((if kind == k then d else []) ++ rest))
    → IsValid k r.cast
    → IsValid k (record_data kind d r).cast × IsUtf8 (partial_of k (record_data kind d r) ++ rest)
unfolding record_data
record_data-IsValid k kind d rest r u v = elim (Bool-cases (kind == k)) [
  | inl e ↦
      let (a, b) = cut-IsUtf8 whole rest (subst IsUtf8 (joined e) u) in
      (
        added (λ _. a),
        subst (λ p. IsUtf8 (p ++ rest)) (sym (partial-record_data k kind d r ∙ ground (arith, e)))
            b,
      )
  | inr e ↦ (
    added (λ h. absurd (ground (arith, e, h))),
    subst (λ p. IsUtf8 (p ++ rest)) (sym (partial-record_data k kind d r ∙ ground (arith, e)))
        (subst IsUtf8 (apart e) u),
  )
]
  where
    whole : Bytes
    whole = partial_of kind r ++ d

    cut : ℕ
    cut = length whole - incomplete_tail whole

    apart :
        kind == k ≡ false
        → partial_of k r ++ ((if kind == k then d else []) ++ rest) ≡ partial_of k r ++ rest
    apart e = ap (λ b. partial_of k r ++ ((if b then d else []) ++ rest)) e

    joined :
        kind == k ≡ true
        → partial_of k r ++ ((if kind == k then d else []) ++ rest)
          ≡ (partial_of kind r ++ d) ++ rest
    joined e = ground (arith, e, ==→eq kind k e, append_assoc (partial_of kind r) d rest)

    added : (kind == k ≡ true → IsUtf8 (take cut whole)) → IsValid k (record_data kind d r).cast
    added h =
        emit-IsValid k kind (take cut whole)
          (record r { partial = insert kind (drop cut whole) r.partial }) h v
