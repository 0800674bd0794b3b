-- ===== src/Sshd/Session/Run/Relayed.antt =====
-- The relays of a command: what is recorded is what was sent, and the session ends.
use mathlib.Core.List.{map-append}
use nokkud.Sshd.Session.{
  Stream, heard, typed, ended, closed, resized, Recorder, ExitMessage, exit_signal, exit_status,
  extended, standard,
}
use nokkud.Base.{
  is_empty, Bool-cases, Bytes, is_some, ℤ, ℕ, refl, sym, ap, inl, inr, Bool, true, false, Option,
  none, some, List, [], map, append-nil, append_assoc, arith, ◌≡◌, ◌∷◌, ◌++◌, if◌then◌else◌,
}
use nokkud.Sshd.Session.Finish.Once.{ends}
use nokkud.Sshd.Forward.Slots.{fresh}
use nokkud.Sshd.Session.Finish.{
  exit, exit_process, exit_with_signal, finish, exit_code_to_u32, status_of,
}
use nokkud.Sshd.Session.Process.{kill_proc, ProcessState, set_proc, process_signal}
use nokkud.Sshd.Session.Run.{
  Happens, fills, happens, leaves, rec_out, types, write, writes, happen, relay, copy, is_gone,
  is_stopped, stop_copy,
}
use nokkud.Sshd.Session.{RecorderCall, Session, closed, ended, resized}

-- The output and the input in the calls on a recorder.
abbrev pub heard_in : List RecorderCall → List Bytes
heard_in [] = []
heard_in (heard p ∷ cs) = p ∷ heard_in cs
heard_in (_ ∷ cs) = heard_in cs

abbrev pub typed_in : List RecorderCall → List Bytes
typed_in [] = []
typed_in (typed p ∷ cs) = p ∷ typed_in cs
typed_in (_ ∷ cs) = typed_in cs

-- What a command writes, and what the client types while the echo is on.
abbrev pub written_by : List Happens → List Bytes
written_by [] = []
written_by (writes _ p ∷ hs) = p ∷ written_by hs
written_by (_ ∷ hs) = written_by hs

abbrev pub echoed_by : List Happens → List Bytes
echoed_by [] = []
echoed_by (types p echo ∷ hs) = let rest = echoed_by hs in if echo then p ∷ rest else rest
echoed_by (_ ∷ hs) = echoed_by hs

-- Whether the recording gets full or the client leaves.
abbrev pub cut_in : List Happens → Bool
cut_in [] = false
cut_in (fills ∷ hs) = true
cut_in (leaves ∷ hs) = true
cut_in (_ ∷ hs) = cut_in hs

heard_in-append : (l m : List RecorderCall) → heard_in (l ++ m) ≡ heard_in l ++ heard_in m
heard_in-append [] m = refl
heard_in-append (heard p ∷ l) m = ap (λ x. p ∷ x) (heard_in-append l m)
heard_in-append (typed p ∷ l) m = heard_in-append l m
heard_in-append (resized w h ∷ l) m = heard_in-append l m
heard_in-append (ended c ∷ l) m = heard_in-append l m
heard_in-append (closed ∷ l) m = heard_in-append l m

typed_in-append : (l m : List RecorderCall) → typed_in (l ++ m) ≡ typed_in l ++ typed_in m
typed_in-append [] m = refl
typed_in-append (heard p ∷ l) m = typed_in-append l m
typed_in-append (typed p ∷ l) m = ap (λ x. p ∷ x) (typed_in-append l m)
typed_in-append (resized w h ∷ l) m = typed_in-append l m
typed_in-append (ended c ∷ l) m = typed_in-append l m
typed_in-append (closed ∷ l) m = typed_in-append l m

-- A recorded session on a terminal, that has sent `out` and recorded `out` and `keys`.
record Recorded (out keys : List Bytes) (s : Session) : Type 0 where
  pub recorder : Recorder
  pub recorded : s.recorder ≡ some recorder
  pub running : s.exited ≡ false
  pub attached : s.canceled ≡ false
  pub copying : (s.out_stopped ≡ false) × (s.err_stopped ≡ false)
  pub terminal : is_some s.pty ≡ true
  pub sent : map (λ d. d.1) s.output ≡ out
  pub heard_same : heard_in recorder.calls ≡ out
  pub typed_same : typed_in recorder.calls ≡ keys

happens-Recorded :
    (h : Happens) (out keys : List Bytes) (s : Session)
    → cut_in (h ∷ []) ≡ false
    → Recorded out keys s
    → Recorded (out ++ written_by (h ∷ [])) (keys ++ echoed_by (h ∷ [])) (happens h s)
unfolding happens copy is_stopped stop_copy is_gone rec_out write kill_proc
happens-Recorded (writes standard p) out keys s e v = record {
  recorder = record v.recorder { calls = v.recorder.calls ++ (heard p ∷ []) };
  recorded = ground (arith, v.recorded, v.running, v.attached, v.copying);
  running = ground (arith, v.running, v.attached, v.copying);
  attached = ground (arith, v.running, v.attached, v.copying);
  copying = (
    ground (arith, v.running, v.attached, v.copying),
    ground (arith, v.running, v.attached, v.copying),
  );
  terminal = ground (arith, v.running, v.attached, v.copying, v.terminal);
  sent = ground (
    arith,
    v.running,
    v.attached,
    v.copying,
    v.sent,
    map-append (λ (d : Stream × Bytes). d.1) s.output ((standard, p) ∷ []),
  );
  heard_same = ground (arith, v.heard_same, heard_in-append v.recorder.calls (heard p ∷ []));
  typed_same = ground (
    arith,
    v.typed_same,
    typed_in-append v.recorder.calls (heard p ∷ []),
    append-nil keys,
    append-nil (typed_in v.recorder.calls),
  );
}
happens-Recorded (writes extended p) out keys s e v = record {
  recorder = record v.recorder { calls = v.recorder.calls ++ (heard p ∷ []) };
  recorded = ground (arith, v.recorded, v.running, v.attached, v.copying);
  running = ground (arith, v.running, v.attached, v.copying);
  attached = ground (arith, v.running, v.attached, v.copying);
  copying = (
    ground (arith, v.running, v.attached, v.copying),
    ground (arith, v.running, v.attached, v.copying),
  );
  terminal = ground (arith, v.running, v.attached, v.copying, v.terminal);
  sent = ground (
    arith,
    v.running,
    v.attached,
    v.copying,
    v.sent,
    map-append (λ (d : Stream × Bytes). d.1) s.output ((extended, p) ∷ []),
  );
  heard_same = ground (arith, v.heard_same, heard_in-append v.recorder.calls (heard p ∷ []));
  typed_same = ground (
    arith,
    v.typed_same,
    typed_in-append v.recorder.calls (heard p ∷ []),
    append-nil keys,
    append-nil (typed_in v.recorder.calls),
  );
}
happens-Recorded (types p true) out keys s e v = record {
  recorder = record v.recorder { calls = v.recorder.calls ++ (typed p ∷ []) };
  recorded = ground (arith, v.recorded, v.terminal);
  running = ground (arith, v.running);
  attached = ground (arith, v.attached);
  copying = (ground (arith, v.copying), ground (arith, v.copying));
  terminal = ground (arith, v.terminal);
  sent = ground (arith, v.sent, append-nil out);
  heard_same = ground (
    arith,
    v.heard_same,
    heard_in-append v.recorder.calls (typed p ∷ []),
    append-nil out,
    append-nil (heard_in v.recorder.calls),
  );
  typed_same = ground (arith, v.typed_same, typed_in-append v.recorder.calls (typed p ∷ []));
}
happens-Recorded (types p false) out keys s e v = record {
  recorder = v.recorder;
  recorded = ground (arith, v.recorded);
  running = ground (arith, v.running);
  attached = ground (arith, v.attached);
  copying = (ground (arith, v.copying), ground (arith, v.copying));
  terminal = ground (arith, v.terminal);
  sent = ground (arith, v.sent, append-nil out);
  heard_same = ground (arith, v.heard_same, append-nil out);
  typed_same = ground (arith, v.typed_same, append-nil keys);
}
happens-Recorded fills out keys s e v = absurd (ground arith)
happens-Recorded leaves out keys s e v = absurd (ground arith)

written_by-split :
    (h : Happens) (hs : List Happens) → written_by (h ∷ hs) ≡ written_by (h ∷ []) ++ written_by hs
written_by-split (writes stream p) hs = refl
written_by-split (types p echo) hs = refl
written_by-split fills hs = refl
written_by-split leaves hs = refl

echoed_by-split :
    (h : Happens) (hs : List Happens) → echoed_by (h ∷ hs) ≡ echoed_by (h ∷ []) ++ echoed_by hs
echoed_by-split (writes stream p) hs = refl
echoed_by-split (types p true) hs = refl
echoed_by-split (types p false) hs = refl
echoed_by-split fills hs = refl
echoed_by-split leaves hs = refl

cut_in-head : (h : Happens) (hs : List Happens) → cut_in (h ∷ hs) ≡ false → cut_in (h ∷ []) ≡ false
cut_in-head (writes stream p) hs e = refl
cut_in-head (types p echo) hs e = refl
cut_in-head fills hs e = e
cut_in-head leaves hs e = e

cut_in-tail : (h : Happens) (hs : List Happens) → cut_in (h ∷ hs) ≡ false → cut_in hs ≡ false
cut_in-tail (writes stream p) hs e = e
cut_in-tail (types p echo) hs e = e
cut_in-tail fills hs e = absurd (ground arith)
cut_in-tail leaves hs e = absurd (ground arith)

-- `exitProcess` is one `finish`.
pub exit_process-finish :
    (st : Option ProcessState) (s : Session)
    → (code : ℤ) × ((message : ExitMessage) × (exit_process st s ≡ finish code message s))
unfolding exit_process exit exit_with_signal
exit_process-finish st s = go (process_signal st) refl
  where
    go :
        (o : Option (Bytes × ℤ))
        → process_signal st ≡ o
        → (code : ℤ) × ((message : ExitMessage) × (exit_process st s ≡ finish code message s))
    go none e = (status_of st, (exit_status (exit_code_to_u32 (status_of st)), ground arith))
    go (some (name, code)) e = elim (Bool-cases (is_empty name)) [
      | inl d ↦ (code, (exit_status (exit_code_to_u32 code), ground arith))
      | inr d ↦ (code, (exit_signal name, ground arith))
    ]

-- The end of a session adds no output to its recording.
finish-Recorded :
    (code : ℤ) (message : ExitMessage) (out keys : List Bytes) (s : Session)
    → Recorded out keys s
    → (t : Recorder) × (((finish code message s).recorder ≡ some t)
        × ((map (λ d. d.1) (finish code message s).output ≡ out)
            × ((heard_in t.calls ≡ out) × (typed_in t.calls ≡ keys))))
unfolding finish
finish-Recorded code message out keys s v = (
  record v.recorder { calls = (v.recorder.calls ++ (ended code ∷ [])) ++ (closed ∷ []) },
  (
    ground (arith, v.running, v.recorded),
    (
      ground (arith, v.running, v.sent),
      (
        ground (
          arith,
          v.heard_same,
          heard_in-append (v.recorder.calls ++ (ended code ∷ [])) (closed ∷ []),
          heard_in-append v.recorder.calls (ended code ∷ []),
          append-nil (heard_in v.recorder.calls),
        ),
        ground (
          arith,
          v.typed_same,
          typed_in-append (v.recorder.calls ++ (ended code ∷ [])) (closed ∷ []),
          typed_in-append v.recorder.calls (ended code ∷ []),
          append-nil (typed_in v.recorder.calls),
        ),
      ),
    ),
  ),
)

happen-Recorded :
    (hs : List Happens) (out keys : List Bytes) (s : Session)
    → cut_in hs ≡ false
    → Recorded out keys s
    → Recorded (out ++ written_by hs) (keys ++ echoed_by hs) (happen hs s)
unfolding happen
happen-Recorded [] out keys s e v = rw (append-nil out, append-nil keys) v
happen-Recorded (h ∷ hs) out keys s e v =
    rw (next_out, next_keys)
      (happen-Recorded hs (out ++ written_by (h ∷ [])) (keys ++ echoed_by (h ∷ [])) (happens h s)
        (cut_in-tail h hs e) (happens-Recorded h out keys s (cut_in-head h hs e) v))
  where
    next_out : out ++ written_by (h ∷ hs) ≡ (out ++ written_by (h ∷ [])) ++ written_by hs
    next_out =
        rw (written_by-split h hs) (sym (append_assoc out (written_by (h ∷ [])) (written_by hs)))

    next_keys : keys ++ echoed_by (h ∷ hs) ≡ (keys ++ echoed_by (h ∷ [])) ++ echoed_by hs
    next_keys =
        rw (echoed_by-split h hs) (sym (append_assoc keys (echoed_by (h ∷ [])) (echoed_by hs)))

-- While a command runs on the terminal of a recorded session, the recording does not get full and the
-- client does not leave, the client is sent the output of the command, whole and in order; the recording has the same
-- output, and of the input what was typed while the echo was on. The conditions: the session has a
-- recorder and a terminal, has not ended and is not canceled, its copying has not stopped, and nothing
-- was sent or recorded before.
pub relay_recorded :
    (pid : ℕ) (hs : List Happens) (st : Option ProcessState) (r : Recorder) (s : Session)
    → cut_in hs ≡ false
    → s.recorder ≡ some r
    → is_some s.pty ≡ true
    → s.exited ≡ false
    → s.canceled ≡ false
    → s.out_stopped ≡ false
    → s.err_stopped ≡ false
    → s.output ≡ []
    → r.calls ≡ []
    → (t : Recorder) × (((relay pid hs st s).recorder ≡ some t)
        × ((map (λ d. d.1) (relay pid hs st s).output ≡ written_by hs)
            × ((heard_in t.calls ≡ written_by hs) × (typed_in t.calls ≡ echoed_by hs))))
unfolding relay set_proc
relay_recorded pid hs st r s e known terminal running attached out err quiet fresh =
    let (code, (message, ends)) = exit_process-finish st (happen hs (set_proc pid s)) in
    rw (ends) (
      finish-Recorded code message (written_by hs) (echoed_by hs) (happen hs (set_proc pid s))
        (happen-Recorded hs [] [] (set_proc pid s) e start))
  where
    start : Recorded [] [] (set_proc pid s)
    start = record {
      recorder = r;
      recorded = ground (arith, known);
      running = ground (arith, running);
      attached = ground (arith, attached);
      copying = (ground (arith, out), ground (arith, err));
      terminal = ground (arith, terminal);
      sent = ground (arith, quiet);
      heard_same = ground (arith, fresh);
      typed_same = ground (arith, fresh);
    }
