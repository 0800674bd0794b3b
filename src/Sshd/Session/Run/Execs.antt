-- ===== src/Sshd/Session/Run/Execs.antt =====
-- What happens after the start of a command starts no other.
use nokkud.Base.{
  Bytes, ℤ, pos, ℕ, refl, inl, inr, Option, none, some, List, [], arith, ◌≡◌, ◌∙◌, ◌⊎◌, ◌∷◌, ◌++◌,
}
use nokkud.Sshd.Session.Recording.{recording_degraded_event, recording_full}
use nokkud.Sshd.Session.Process.{ProcessState, kill_proc, set_proc}
use nokkud.Sshd.Session.Run.{
  Happens, fills, happen, happens, leaves, plain_started, pty_started, rec_out, relay, sftp_started,
  types, write, writes, copy, is_gone, is_stopped, stop_copy,
}
use nokkud.Sshd.Session.{Session, Stream, extended, standard}
use nokkud.Sshd.Session.Finish.{exit, exit_process, exit_with_signal, finish}

happens-execs : (h : Happens) (s : Session) → (happens h s).execs ≡ s.execs
unfolding happens copy is_stopped stop_copy is_gone rec_out write recording_full
    recording_degraded_event exit finish kill_proc
happens-execs (writes standard p) s = ground arith
happens-execs (writes extended p) s = ground arith
happens-execs (types p echo) s = ground arith
happens-execs fills s = ground arith
happens-execs leaves s = ground arith

happen-execs : (hs : List Happens) (s : Session) → (happen hs s).execs ≡ s.execs
unfolding happen
happen-execs [] s = refl
happen-execs (h ∷ hs) s = happen-execs hs (happens h s) ∙ happens-execs h s

exit_process-execs : (st : Option ProcessState) (s : Session) → (exit_process st s).execs ≡ s.execs
unfolding exit_process exit exit_with_signal finish
exit_process-execs st s = ground arith

pub exit-execs : (code : ℤ) (s : Session) → (exit code s).execs ≡ s.execs
unfolding exit finish
exit-execs code s = ground arith

relay-execs :
    (pid : ℕ) (hs : List Happens) (st : Option ProcessState) (s : Session)
    → (relay pid hs st s).execs ≡ s.execs
unfolding relay set_proc
relay-execs pid hs st s =
    ground
      (arith, exit_process-execs st (happen hs (set_proc pid s)), happen-execs hs (set_proc pid s))

write-execs : (stream : Stream) (p : Bytes) (s : Session) → (write stream p s).execs ≡ s.execs
unfolding write is_gone
write-execs stream p s = ground arith

pub pty_started-execs :
    (hs : List Happens) (st : Option ProcessState) (p : Session × Option (ℕ × Bytes))
    → (pty_started hs st p).execs ≡ p.0.execs
unfolding pty_started
pty_started-execs hs st (s, none) = exit-execs (pos 1) s
pty_started-execs hs st (s, some (pid, notice)) = relay-execs pid _ st s

pub plain_started-execs :
    (hs : List Happens) (st : Option ProcessState) (p : Session × Option (ℕ × Bytes))
    → (plain_started hs st p).execs ≡ p.0.execs
unfolding plain_started
plain_started-execs hs st (s, none) = exit-execs (pos 1) s
plain_started-execs hs st (s, some (pid, notice)) = ground (
  arith,
  relay-execs pid hs st s,
  relay-execs pid hs st (write extended (notice ++ (10 ∷ [])) s),
  write-execs extended (notice ++ (10 ∷ [])) s,
)

pub sftp_started-execs :
    (hs : List Happens) (st : Option ProcessState) (p : Session × (ℕ ⊎ Option Bytes))
    → (sftp_started hs st p).execs ≡ p.0.execs
unfolding sftp_started
sftp_started-execs hs st (s, inr _) = exit-execs (pos 1) s
sftp_started-execs hs st (s, inl pid) = relay-execs pid hs st s
