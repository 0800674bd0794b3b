-- ===== src/Recording/Recorder.antt =====
-- internal/recording/recorder.go: the events of a recording. The file, gzip, the clock and JSON are
-- outside: an event is seen as its type and its data, without its interval, and the compressed size
-- that the code compares with the limit is an argument.
pub mod Utf8
pub mod Written
pub mod Exact
pub mod Boundary
pub mod Cut
pub mod Valid
pub mod Decoded
pub mod Ended
use nokkud.Base.{
  is_empty, ltb, length, take, drop, Bytes, codes, Dict, lookup, insert, get_or, ℤ, pos, negsuc, ℕ,
  Bool, true, false, Option, none, some, List, [], ◌+◌, ◌-◌, ◌||◌, ◌∷◌, ◌++◌, ◌==◌, if◌then◌else◌,
  nat_eq, bytes_eq,
}
use nokkud.Sshd.Forward.{format_uint}
use nokkud.Recording.Recorder.Utf8.{incomplete_tail}

-- A line of the recording.
pub record CastEvent : Type 0 where
  pub kind : Bytes
  pub text : Bytes

-- `Recorder`. `cast` is what was written, the oldest first; `footers` counts the closings of the
-- gzip stream and of the file, `limits` the calls of `onLimit`. `active` is the recorder's entry in
-- the package's map of the same name, and `removed` that its file was removed after an upload.
pub record Recorder : Type 0 where
  pub max_size : ℕ
  pub has_sink : Bool
  pub partial : Dict Bytes Bytes
  pub exit_code : Option ℤ
  pub dirty : Bool
  pub closed : Bool
  pub cast : List CastEvent
  pub footers : ℕ
  pub limits : ℕ
  pub active : Bool
  pub removed : Bool

-- The recorder that `New` returns; a limit of 0 stands for 50 MB.
unfoldable pub new_recorder : ℕ → Bool → Recorder
new_recorder max_size has_sink = record {
  max_size = if max_size == 0 then 52428800 else max_size;
  has_sink = has_sink;
  partial = [];
  exit_code = none;
  dirty = false;
  closed = false;
  cast = [];
  footers = 0;
  limits = 0;
  active = true;
  removed = false;
}

-- `emit`.
unfoldable pub emit : Bytes → Bytes → Recorder → Recorder
emit kind text r = record r {
  cast = r.cast ++ (record { kind = kind; text = text } ∷ []);
  dirty = true;
}

-- `r.partial[eventType]`.
abbrev pub partial_of : Bytes → Recorder → Bytes
partial_of kind r = get_or (lookup kind r.partial) []

-- `event` below the limit: all of the data but an unfinished last character is written.
unfoldable pub record_data : Bytes → Bytes → Recorder → Recorder
unfolding emit
record_data kind data' r =
    let whole = partial_of kind r ++ data' in
    let cut = length whole - incomplete_tail whole in
    emit kind (take cut whole) (record r { partial = insert kind (drop cut whole) r.partial })

-- The loop of `closeLocked` on one type.
unfoldable pub emit_tail : Bytes → Recorder → Recorder
unfolding emit
emit_tail kind r = if is_empty (partial_of kind r) then r else emit kind (partial_of kind r) r

-- `strconv.Itoa`.
unfoldable pub itoa : ℤ → Bytes
itoa (pos n) = format_uint n
itoa (negsuc n) = b'-' ∷ format_uint (n + 1)

-- The exit event of `closeLocked`.
unfoldable pub emit_exit : Recorder → Recorder
unfolding emit
emit_exit r = elim r.exit_code [ none ↦ r | some status ↦ emit (codes "x") (itoa status) r ]

-- `closeLocked`. A sink is closed later, by `sink_closed`.
unfoldable pub close_locked : Recorder → Recorder
unfolding emit_tail emit_exit
close_locked r =
    if r.closed
    then r
    else let last =
        emit_exit (emit_tail (codes "i") (emit_tail (codes "o") (record r { closed = true }))) in
      record last { footers = last.footers + 1; active = last.has_sink }

-- The goroutine of `closeLocked`, when the sink's `Close` has returned; `ok` is a nil error.
unfoldable pub sink_closed : Bool → Recorder → Recorder
sink_closed ok r = record r { active = false; removed = ok || r.removed }

-- `event`, when `written` bytes are in the file.
unfoldable pub event : ℕ → Bytes → Bytes → Recorder → Recorder
unfolding record_data close_locked
event written kind data' r =
    if r.closed
    then r
    else if ltb written r.max_size
    then record_data kind data' r
    else (let last = close_locked r in record last { limits = last.limits + 1 })

-- `RecordOutput`.
unfoldable pub record_output : ℕ → Bytes → Recorder → Recorder
unfolding event
record_output written data' r = event written (codes "o") data' r

-- `RecordInput`.
unfoldable pub record_input : ℕ → Bytes → Recorder → Recorder
unfolding event
record_input written data' r = event written (codes "i") data' r

-- `RecordResize`.
unfoldable pub record_resize : ℕ → ℤ → ℤ → Recorder → Recorder
unfolding event
record_resize written width height r =
    event written (codes "r") (itoa width ++ (b'x' ∷ itoa height)) r

-- `RecordExit`.
unfoldable pub record_exit : ℤ → Recorder → Recorder
record_exit status r = if r.closed then r else record r { exit_code = some status }

-- A tick of `flushLoop`.
unfoldable pub flush_tick : Recorder → Recorder
flush_tick r = if r.closed then r else record r { dirty = false }

-- The calls on a recorder; a number is the size of the file at the call.
pub data Call : Type 0 where
  output input : ℕ → Bytes → Call
  resize : ℕ → ℤ → ℤ → Call
  exit : ℤ → Call
  tick : Call
  close : Call

unfoldable pub perform : Call → Recorder → Recorder
unfolding record_output record_input record_resize record_exit flush_tick close_locked
perform (output written data') r = record_output written data' r
perform (input written data') r = record_input written data' r
perform (resize written width height) r = record_resize written width height r
perform (exit status) r = record_exit status r
perform tick r = flush_tick r
perform close r = close_locked r

unfoldable pub perform_all : List Call → Recorder → Recorder
unfolding perform
perform_all [] r = r
perform_all (c ∷ cs) r = perform_all cs (perform c r)
