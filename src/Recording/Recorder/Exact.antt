-- ===== src/Recording/Recorder/Exact.antt =====
-- What a recording holds of the data that it was given.
use nokkud.Base.{
  ltb, Bool-cases, Bytes, codes, bytes_beq, lookup, ℕ, max, refl, inl, inr, Bool, true, false, some,
  List, [], append-nil, append_assoc, arith, ◌≡◌, ◌∙◌, ◌∷◌, ◌++◌, ◌==◌, if◌then◌else◌, nat_eq,
  bytes_eq,
}
use nokkud.Recording.Recorder.Written.{
  IsStream, carried, carried-record_data, text, text-close_locked,
}
use nokkud.Recording.Recorder.{
  Recorder, Call, close, close_locked, emit, emit_exit, emit_tail, event, exit, flush_tick, input,
  itoa, new_recorder, output, perform, perform_all, record_data, record_exit, record_input,
  record_output, record_resize, resize, tick,
}

-- The data that a recording of at most `max` bytes is given of the type `k`, up to the first call
-- that closes it or finds the file full.
abbrev pub given : ℕ → Bytes → List Call → Bytes
given max k [] = []
given max k (output written d ∷ cs) =
    if ltb written max then (if codes "o" == k then d ++ given max k cs else given max k cs) else []
given max k (input written d ∷ cs) =
    if ltb written max then (if codes "i" == k then d ++ given max k cs else given max k cs) else []
given max k (resize written _ _ ∷ cs) = if ltb written max then given max k cs else []
given max k (close ∷ cs) = []
given max k (_ ∷ cs) = given max k cs

-- A closed recorder writes nothing more.
pub perform-closed :
    (c : Call) (r : Recorder)
    → r.closed ≡ true
    → ((perform c r).closed ≡ true) × ((perform c r).cast ≡ r.cast)
unfolding perform record_output record_input record_resize record_exit flush_tick close_locked event
perform-closed (output written d) r h = ground arith
perform-closed (input written d) r h = ground arith
perform-closed (resize written w l) r h = ground arith
perform-closed (exit status) r h = ground arith
perform-closed tick r h = ground arith
perform-closed close r h = ground arith

pub perform_all-closed :
    (cs : List Call) (r : Recorder)
    → r.closed ≡ true
    → ((perform_all cs r).closed ≡ true) × ((perform_all cs r).cast ≡ r.cast)
unfolding perform_all
perform_all-closed [] r h = (h, refl)
perform_all-closed (c ∷ cs) r h =
    let (h', e) = perform-closed c r h in
    let (h'', e') = perform_all-closed cs (perform c r) h' in (h'', e' ∙ e)

pub close-closed : (r : Recorder) → r.closed ≡ true → close_locked r ≡ r
unfolding close_locked
close-closed r h = ground arith

pub closed-close_locked : (r : Recorder) → (close_locked r).closed ≡ true
unfolding close_locked emit_exit emit_tail emit
closed-close_locked r = ground arith

-- After a call that closed an open recorder, the rest changes nothing.
text-after :
    (k : Bytes) (cs : List Call) (r s : Recorder)
    → IsStream k
    → r.closed ≡ false
    → s.closed ≡ true
    → s.cast ≡ (close_locked r).cast
    → text k (close_locked (perform_all cs s)).cast ≡ carried k r
text-after k cs r s h o c e =
    let (c', e') = perform_all-closed cs s c in
    ground (arith, close-closed (perform_all cs s) c', text-close_locked k r h o)

pub event-full :
    (written : ℕ) (kind d : Bytes) (r : Recorder)
    → r.closed ≡ false
    → ltb written r.max_size ≡ false
    → ((event written kind d r).closed ≡ true)
      × ((event written kind d r).cast ≡ (close_locked r).cast)
unfolding event
event-full written kind d r o f = ground (arith, closed-close_locked r)

pub event-room :
    (written : ℕ) (kind d : Bytes) (r : Recorder)
    → r.closed ≡ false
    → ltb written r.max_size ≡ true
    → event written kind d r ≡ record_data kind d r
unfolding event
event-room written kind d r o f = ground arith

pub record_data-keeps :
    (kind d : Bytes) (r : Recorder)
    → ((record_data kind d r).closed ≡ r.closed) × ((record_data kind d r).max_size ≡ r.max_size)
unfolding record_data emit
record_data-keeps kind d r = (refl, refl)

module _ (k : Bytes) (h : IsStream k) where
  -- What an event of any type adds, with what the remaining calls add after it.
  event-step :
      (cs : List Call) (written : ℕ) (kind d : Bytes) (r : Recorder)
      → ((s : Recorder)
          → s.closed ≡ false
          → text k (close_locked (perform_all cs s)).cast ≡ carried k s ++ given s.max_size k cs)
      → r.closed ≡ false
      → text k (close_locked (perform_all cs (event written kind d r))).cast
        ≡ carried k r
          ++ (if ltb written r.max_size
              then (if kind == k then d else []) ++ given r.max_size k cs
              else [])
  event-step cs written kind d r go o = elim (Bool-cases (ltb written r.max_size)) [
    | inl f ↦
        let (c, m) = record_data-keeps kind d r in
        ground (
          arith,
          event-room written kind d r o f,
          go (record_data kind d r) (c ∙ o),
          carried-record_data k kind d r,
          append_assoc (carried k r) (if kind == k then d else []) (given r.max_size k cs),
        )
    | inr f ↦
        let (c, e) = event-full written kind d r o f in
        ground (arith, text-after k cs r (event written kind d r) h o c e, append-nil (carried k r))
  ]

  text-perform_all :
      (cs : List Call) (r : Recorder)
      → r.closed ≡ false
      → text k (close_locked (perform_all cs r)).cast ≡ carried k r ++ given r.max_size k cs
  unfolding perform_all perform record_output record_input record_resize record_exit flush_tick
      codes bytes_beq
  text-perform_all [] r o = ground (arith, text-close_locked k r h o, append-nil (carried k r))
  text-perform_all (output written d ∷ cs) r o =
      ground (arith, event-step cs written (codes "o") d r (text-perform_all cs) o)
  text-perform_all (input written d ∷ cs) r o =
      ground (arith, event-step cs written (codes "i") d r (text-perform_all cs) o)
  text-perform_all (resize written w l ∷ cs) r o =
      let d = itoa w ++ (b'x' ∷ itoa l) in
      ground (arith, event-step cs written (codes "r") d r (text-perform_all cs) o)
  text-perform_all (exit status ∷ cs) r o =
      ground (arith, text-perform_all cs (record r { exit_code = some status }) o)
  text-perform_all (tick ∷ cs) r o =
      ground (arith, text-perform_all cs (record r { dirty = false }) o)
  text-perform_all (close ∷ cs) r o = ground (
    arith,
    text-after k cs r (close_locked r) h o (closed-close_locked r) refl,
    append-nil (carried k r),
  )

-- Once closed, a recording's output events joined are all the output that was given to it up to
-- its closing or the call that found the file full, byte for byte and in order, wherever the chunks
-- split a character; the same holds of the input events. Data is compared before its JSON encoding.
pub recorded_exactly :
    (max : ℕ) (sink : Bool) (k : Bytes) (cs : List Call)
    → IsStream k
    → text k (close_locked (perform_all cs (new_recorder max sink))).cast
      ≡ given (new_recorder max sink).max_size k cs
unfolding new_recorder lookup
recorded_exactly max sink k cs h = text-perform_all k h cs (new_recorder max sink) refl
