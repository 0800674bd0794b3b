-- ===== src/Sshd/Session/Process.antt =====
-- internal/sshd/session.go and signal.go: the signals and the end of a session's process.
pub mod Signals
use nokkud.Base.{
  Bytes, codes, Dict, lookup, get_or, ℤ, pos, ℕ, true, false, Option, none, some, [], map, ◌+◌, ◌∷◌,
  ◌++◌, ◌==◌, if◌then◌else◌, nat_eq, bytes_eq,
}
use nokkud.Sshd.Session.{Session, killed, reply, signaled}

-- `sshSignals`, with the numbers of Linux.
ssh_signals : Dict Bytes ℕ
ssh_signals =
    (codes "ABRT", 6)
    ∷ (codes "ALRM", 14)
    ∷ (codes "FPE", 8)
    ∷ (codes "HUP", 1)
    ∷ (codes "ILL", 4)
    ∷ (codes "INT", 2)
    ∷ (codes "KILL", 9)
    ∷ (codes "PIPE", 13)
    ∷ (codes "QUIT", 3)
    ∷ (codes "SEGV", 11)
    ∷ (codes "TERM", 15)
    ∷ (codes "USR1", 10)
    ∷ (codes "USR2", 12)
    ∷ []

-- `signalByName`.
unfoldable pub signal_by_name : Bytes → Option ℕ
unfolding ssh_signals
signal_by_name name = lookup name ssh_signals

-- The name of a signal in a table of names, if it has one.
name_of : ℕ → Dict Bytes ℕ → Option Bytes
name_of sig [] = none
name_of sig ((name, n) ∷ m) = if n == sig then some name else name_of sig m

-- What `os.ProcessState` tells: an exit code, a signal, or neither.
pub data ProcessState : Type 0 where
  exited_with : ℤ → ProcessState
  signaled_by : ℕ → ProcessState
  other : ProcessState

-- `processSignal`: the name, empty if it has none, and the code.
unfoldable pub process_signal : Option ProcessState → Option (Bytes × ℤ)
unfolding name_of ssh_signals
process_signal (some (signaled_by sig)) =
    some (get_or (name_of sig ssh_signals) [], pos (128 + sig))
process_signal _ = none

-- `signal`; the payload is `none` if it does not unmarshal.
unfoldable pub signal : Option Bytes → Session → Session
signal none s = reply false s
signal (some name) s = elim (signal_by_name name) [
  | none ↦ reply false s
  | some sig ↦ elim s.proc [
    | some p ↦ reply true (record s { sent = s.sent ++ (signaled p sig ∷ []) })
    | none ↦ reply true (record s { pending_signals = s.pending_signals ++ (sig ∷ []) })
  ]
]

-- `setProc`.
unfoldable pub set_proc : ℕ → Session → Session
set_proc p s = if s.want_kill then record s { sent = s.sent ++ (killed p ∷ []) } else record s {
  proc = some p;
  sent = s.sent ++ map (λ sig. signaled p sig) s.pending_signals;
  pending_signals = [];
}

-- `killProc`.
unfoldable pub kill_proc : Session → Session
kill_proc s = elim s.proc [
  | none ↦ record s { want_kill = true }
  | some p ↦ record s { want_kill = true; sent = s.sent ++ (killed p ∷ []) }
]
