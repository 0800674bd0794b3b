-- ===== src/Recording/Recorder/Ended.antt =====
-- The end of a recording, and the bytes that wait in it.
use nokkud.Base.{
  length, drop, length-drop, Bytes, codes, lookup, lookup-insert, ℤ, ℕ, max, refl, ap, Bool, true,
  false, Option, none, some, List, [], arith, ◌-◌, ◌≤◌, ◌≡◌, ◌∙◌, ◌∷◌, ◌++◌, nat_eq, bytes_eq,
}
use nokkud.Recording.Recorder.Exact.{closed-close_locked, perform_all-closed}
use nokkud.Recording.Recorder.Written.{cast-close_locked}
use nokkud.Recording.Recorder.{
  CastEvent, Recorder, Call, close, close_locked, emit, emit_exit, emit_tail, event, exit,
  flush_tick, input, itoa, new_recorder, output, partial_of, perform, perform_all, record_data,
  record_exit, record_input, record_output, record_resize, resize, tick,
}
use nokkud.Recording.Recorder.Utf8.{incomplete_tail, incomplete_tail-bound}

abbrev Short : Recorder → Type 0
Short r = (k : Bytes) → length (partial_of k r) ≤ 3

event-Short :
    (written : ℕ) (kind d : Bytes) (r : Recorder) → Short r → Short (event written kind d r)
unfolding event record_data close_locked emit emit_tail emit_exit
event-Short written kind d r h k =
    let whole = partial_of kind r ++ d in
    let cut = length whole - incomplete_tail whole in
    ground (
      arith,
      h k,
      lookup-insert kind k (drop cut whole) r.partial,
      length-drop cut whole,
      incomplete_tail-bound whole,
    )

perform-Short : (c : Call) (r : Recorder) → Short r → Short (perform c r)
unfolding perform record_output record_input record_resize record_exit flush_tick close_locked emit
    emit_tail emit_exit
perform-Short (output written d) r h k = event-Short written (codes "o") d r h k
perform-Short (input written d) r h k = event-Short written (codes "i") d r h k
perform-Short (resize written w l) r h k =
    event-Short written (codes "r") (itoa w ++ (b'x' ∷ itoa l)) r h k
perform-Short (exit status) r h k = ground (arith, h k)
perform-Short tick r h k = ground (arith, h k)
perform-Short close r h k = ground (arith, h k)

perform_all-Short : (cs : List Call) (r : Recorder) → Short r → Short (perform_all cs r)
unfolding perform_all
perform_all-Short [] r h = h
perform_all-Short (c ∷ cs) r h = perform_all-Short cs (perform c r) (perform-Short c r h)

-- At any time at most three bytes of a type wait for the rest of their character.
pub waiting_bounds :
    (max : ℕ) (sink : Bool) (k : Bytes) (cs : List Call)
    → length (partial_of k (perform_all cs (new_recorder max sink))) ≤ 3
unfolding new_recorder lookup
waiting_bounds max sink k cs = perform_all-Short cs (new_recorder max sink) (λ j. omega arith) k

abbrev pub footer_count : Bool → ℕ
footer_count false = 0
footer_count true = 1

abbrev Ends : Recorder → Type 0
Ends r = (r.footers ≡ footer_count r.closed) × (r.limits ≤ r.footers)

close_locked-Ends : (r : Recorder) → Ends r → Ends (close_locked r)
unfolding close_locked emit emit_tail emit_exit
close_locked-Ends r h = ground arith

-- A full file closes an open recorder, and then calls `onLimit`.
event-Ends : (written : ℕ) (kind d : Bytes) (r : Recorder) → Ends r → Ends (event written kind d r)
unfolding event record_data close_locked emit emit_tail emit_exit
event-Ends written kind d r h = ground arith

perform-Ends : (c : Call) (r : Recorder) → Ends r → Ends (perform c r)
unfolding perform record_output record_input record_resize record_exit flush_tick
perform-Ends (output written d) r h = event-Ends written (codes "o") d r h
perform-Ends (input written d) r h = event-Ends written (codes "i") d r h
perform-Ends (resize written w l) r h =
    event-Ends written (codes "r") (itoa w ++ (b'x' ∷ itoa l)) r h
perform-Ends (exit status) r h = ground arith
perform-Ends tick r h = ground arith
perform-Ends close r h = close_locked-Ends r h

perform_all-Ends : (cs : List Call) (r : Recorder) → Ends r → Ends (perform_all cs r)
unfolding perform_all
perform_all-Ends [] r h = h
perform_all-Ends (c ∷ cs) r h = perform_all-Ends cs (perform c r) (perform-Ends c r h)

-- Whatever is called on a recorder, and however often: its stream and its file are closed once if it
-- is closed, and not before, and `onLimit` is called at most once, only by then.
pub closed_once :
    (max : ℕ) (sink : Bool) (cs : List Call)
    → let r = perform_all cs (new_recorder max sink) in
      (r.footers ≡ footer_count r.closed) × (r.limits ≤ r.footers)
unfolding new_recorder
closed_once max sink cs = perform_all-Ends cs (new_recorder max sink) (refl, omega arith)

abbrev pub last_event : List CastEvent → Option CastEvent
last_event [] = none
last_event (e ∷ []) = some e
last_event (e ∷ d ∷ es) = last_event (d ∷ es)

last_event-append : (xs : List CastEvent) (e : CastEvent) → last_event (xs ++ (e ∷ [])) ≡ some e
last_event-append [] e = refl
last_event-append (x ∷ []) e = refl
last_event-append (x ∷ y ∷ xs) e = last_event-append (y ∷ xs) e

exit_code-emit_tail : (kind : Bytes) (r : Recorder) → (emit_tail kind r).exit_code ≡ r.exit_code
unfolding emit_tail emit
exit_code-emit_tail kind r = ground arith

cast-emit_exit :
    (r : Recorder) (status : ℤ)
    → r.exit_code ≡ some status
    → (emit_exit r).cast ≡ r.cast ++ (record { kind = codes "x"; text = itoa status } ∷ [])
unfolding emit_exit emit
cast-emit_exit r status h = ground arith

-- When an open recorder that was told an exit status is closed, its exit event is the last of the
-- recording, and stays the last whatever is called afterwards.
pub exit_is_last :
    (r : Recorder) (status : ℤ) (cs : List Call)
    → r.closed ≡ false
    → r.exit_code ≡ some status
    → last_event (perform_all cs (close_locked r)).cast
      ≡ some (record { kind = codes "x"; text = itoa status })
exit_is_last r status cs o h =
    let first = emit_tail (codes "o") (record r { closed = true }) in
    let tails = emit_tail (codes "i") first in
    let (_, e) = perform_all-closed cs (close_locked r) (closed-close_locked r) in
    let x =
      exit_code-emit_tail (codes "i") first
      ∙ (exit_code-emit_tail (codes "o") (record r { closed = true }) ∙ h) in
    ap last_event (e ∙ (cast-close_locked r o ∙ cast-emit_exit tails status x))
    ∙ last_event-append tails.cast (record { kind = codes "x"; text = itoa status })
