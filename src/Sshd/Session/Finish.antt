-- ===== src/Sshd/Session/Finish.antt =====
-- internal/sshd/session.go: the end of a session.
pub mod Once
use nokkud.Base.{
  is_empty, Bytes, ℤ, pos, negsuc, ltb_ℤ, ℕ, true, Option, none, some, [], ◌-◌, ◌%◌, ◌^◌, ◌||◌, ◌∷◌,
  ◌++◌, if◌then◌else◌,
}
use nokkud.Sshd.Audit.{emit, session_end}
use nokkud.Sshd.Session.{
  ExitMessage, Recorder, RecorderCall, Session, closed, ended, event, exit_signal, exit_status,
}
use nokkud.Sshd.Session.Process.{ProcessState, process_signal, exited_with}

-- `uint32(code)`.
to_u32 : ℤ → ℕ
to_u32 (pos n) = n % 2 ^ 32
to_u32 (negsuc n) = 2 ^ 32 - 1 - n % 2 ^ 32

-- `exitCodeToU32`.
unfoldable pub exit_code_to_u32 : ℤ → ℕ
unfolding to_u32
exit_code_to_u32 code = if ltb_ℤ code (pos 0) || ltb_ℤ (pos 255) code then 1 else to_u32 code

abbrev pub record_call : RecorderCall → Option Recorder → Option Recorder
record_call c none = none
record_call c (some r) = some (record r { calls = r.calls ++ (c ∷ []) })

-- `finish`.
unfoldable pub finish : ℤ → ExitMessage → Session → Session
finish code message s = if s.exited then s else record s {
  exited = true;
  canceled = true;
  recorder = record_call closed (record_call (ended code) s.recorder);
  log = emit s.log (record (event s session_end) { exit_code = code });
  exit_messages = s.exit_messages ++ (message ∷ []);
}

-- `exit`.
unfoldable pub exit : ℤ → Session → Session
exit code = finish code (exit_status (exit_code_to_u32 code))

-- `exitSignal`.
unfoldable pub exit_with_signal : Bytes → ℤ → Session → Session
exit_with_signal name code = finish code (exit_signal name)

unfoldable pub status_of : Option ProcessState → ℤ
status_of (some (exited_with code)) = code
status_of _ = pos 1

-- `exitProcess`.
unfoldable pub exit_process : Option ProcessState → Session → Session
unfolding status_of
exit_process st s = elim (process_signal st) [
  | none ↦ exit (status_of st) s
  | some (name, code) ↦ if is_empty name then exit code s else exit_with_signal name code s
]
