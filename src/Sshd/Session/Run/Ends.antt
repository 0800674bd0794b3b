-- ===== src/Sshd/Session/Run/Ends.antt =====
-- Every handler of a session ends it, with one exit message.
use nokkud.Base.{
  is_empty, length, length-append, Bytes, codes, ℤ, pos, ℕ, refl, ap, inl, inr, Bool, true, false,
  Option, none, some, List, [], arith, ◌≡◌, ◌∙◌, ◌⊎◌, ◌∷◌, ◌++◌, if◌then◌else◌,
}
use nokkud.Sshd.Session.Requests.{Outside}
use nokkud.Sshd.Policy.{Policy}
use nokkud.Sshd.Session.Run.Relayed.{exit_process-finish}
use nokkud.Sshd.Session.Run.Starts.{
  Started, added, not_yet, start_on_tty-Started, start_piped-Started,
}
use nokkud.Sshd.Session.Recording.{recording_degraded_event, recording_full, start_recorder}
use nokkud.Sshd.Session.Finish.{exit, finish}
use nokkud.Sshd.Session.Finish.Once.{ends}
use nokkud.Sshd.Session.Process.{ProcessState, kill_proc, set_proc}
use nokkud.Sshd.Session.{ExitMessage, Session, Stream, extended, RecorderOptions, standard}
use nokkud.Sshd.Session.Run.{
  Happens, fills, happen, happens, leaves, plain_started, pty_started, rec_out, relay, types, write,
  writes, Machine, after_start, retry_start, run_plain, run_pty, run_session, run_sftp_session,
  run_with, sftp_server_cmd, sftp_started, shell_cmd, start_in_home, start_on_tty, start_piped,
  copy, is_gone, is_stopped, stop_copy,
}
use nokkud.Sshd.Command.{Cmd, SysProcAttr, sys_proc_attr}

-- A session has told its end once it has one, and not before.
abbrev pub Told : Session → Type 0
Told s = length s.exit_messages ≡ (if s.exited then 1 else 0)

finish-Told :
    (code : ℤ) (message : ExitMessage) (s : Session) → Told s → Told (finish code message s)
unfolding finish
finish-Told code message s h = ground (arith, length-append s.exit_messages (message ∷ []))

happens-Told : (h : Happens) (s : Session) → Told s → Told (happens h s)
unfolding happens copy is_stopped stop_copy is_gone rec_out write recording_full
    recording_degraded_event exit kill_proc
happens-Told (writes standard p) s h = ground arith
happens-Told (writes extended p) s h = ground arith
happens-Told (types p echo) s h = ground arith
happens-Told fills s h = finish-Told _ _ _ h
happens-Told leaves s h = ground arith

happen-Told : (hs : List Happens) (s : Session) → Told s → Told (happen hs s)
unfolding happen
happen-Told [] s h = h
happen-Told (e ∷ hs) s h = happen-Told hs (happens e s) (happens-Told e s h)

finish-exited :
    (code : ℤ) (message : ExitMessage) (s : Session) → (finish code message s).exited ≡ true
unfolding finish
finish-exited code message s = ground arith

-- An end that is told once.
abbrev Over : Session → Type 0
Over s = (s.exited ≡ true) × (length s.exit_messages ≡ 1)

finish-Over :
    (code : ℤ) (message : ExitMessage) (s : Session) → Told s → Over (finish code message s)
finish-Over code message s h = (
  finish-exited code message s,
  finish-Told code message s h ∙ ap (λ b. if b then 1 else 0) (finish-exited code message s),
)

relay-Over :
    (pid : ℕ) (hs : List Happens) (st : Option ProcessState) (s : Session)
    → Told s
    → Over (relay pid hs st s)
unfolding relay set_proc
relay-Over pid hs st s h =
    let (code, (message, ends)) = exit_process-finish st (happen hs (set_proc pid s)) in
    rw (ends) (
      finish-Over code message (happen hs (set_proc pid s))
        (happen-Told hs (set_proc pid s) (ground arith)))

exit-Over : (s : Session) → Told s → Over (exit (pos 1) s)
unfolding exit
exit-Over s h = finish-Over (pos 1) _ s h

write-Told : (stream : Stream) (p : Bytes) (s : Session) → Told s → Told (write stream p s)
unfolding write is_gone
write-Told stream p s h = ground arith

pty_started-Over :
    (hs : List Happens) (st : Option ProcessState) (p : Session × Option (ℕ × Bytes))
    → Told p.0
    → Over (pty_started hs st p)
unfolding pty_started
pty_started-Over hs st (s, none) h = exit-Over s h
pty_started-Over hs st (s, some (pid, notice)) h = relay-Over pid _ st s h

plain_started-Over :
    (hs : List Happens) (st : Option ProcessState) (p : Session × Option (ℕ × Bytes))
    → Told p.0
    → Over (plain_started hs st p)
unfolding plain_started
plain_started-Over hs st (s, none) h = exit-Over s h
plain_started-Over hs st (s, some (pid, notice)) h = relay-Over pid hs st _ (told (is_empty notice))
  where
    told : (b : Bool) → Told (if b then s else write extended (notice ++ (10 ∷ [])) s)
    told true = h
    told false = write-Told extended (notice ++ (10 ∷ [])) s h

Started-Told : {cmd : Cmd} {s t : Session} → Started cmd s t → Told s → Told t
Started-Told (not_yet e) h = rw (e) h
Started-Told (added c e b a d) h = rw (e) h

start_in_home-Told :
    (m : Machine) (start : Cmd → Session → Session × (ℕ ⊎ Option Bytes)) (s : Session)
    → ((cmd : Cmd) (t : Session) → Started cmd t (start cmd t).0)
    → Told s
    → Told (start_in_home m start s).0
unfolding start_in_home after_start retry_start
start_in_home-Told m start s begins h = go (shell_cmd m s) refl
  where
    again :
        (t : Session) (reason : Bytes) (o : Option Cmd)
        → Told t
        → Told (retry_start start reason o t).0
    again t reason none k = k
    again t reason (some cmd) k = Started-Told (begins (record cmd { dir = codes "/" }) t) k

    begun : (p : Session × (ℕ ⊎ Option Bytes)) → Told p.0 → Told (after_start m start p).0
    begun (t, inl pid) k = k
    begun (t, inr none) k = k
    begun (t, inr (some reason)) k = again t reason (shell_cmd m t) k

    go : (o : Option Cmd) → shell_cmd m s ≡ o → Told (start_in_home m start s).0
    go none e = rw (start_in_home, e) h
    go (some cmd) e = rw (start_in_home, e) (begun (start cmd s) (Started-Told (begins cmd s) h))

start_recorder-Told :
    (canonical : Bytes → Bool) (new : RecorderOptions → Option Bytes) (policy : Policy) (w l : ℕ)
    (s : Session)
    → Told s
    → Told (start_recorder canonical new policy w l s)
unfolding start_recorder recording_degraded_event
start_recorder-Told canonical new policy w l s h = ground arith

sftp_started-Over :
    (hs : List Happens) (st : Option ProcessState) (p : Session × (ℕ ⊎ Option Bytes))
    → Told p.0
    → Over (sftp_started hs st p)
unfolding sftp_started
sftp_started-Over hs st (s, inr _) h = exit-Over s h
sftp_started-Over hs st (s, inl pid) h = relay-Over pid hs st s h

run_sftp_session-Over :
    (m : Machine) (hs : List Happens) (st : Option ProcessState) (s : Session)
    → Told s
    → Over (run_sftp_session m hs st s)
unfolding run_sftp_session
run_sftp_session-Over m hs st s h = go m.executable refl (sys_proc_attr m.root m.id s.user) refl
  where
    go :
        (bin : Option Bytes)
        → m.executable ≡ bin
        → (attr : Option SysProcAttr) → sys_proc_attr m.root m.id s.user ≡ attr
        → Over (run_sftp_session m hs st s)
    go none e attr d = rw (run_sftp_session, e) (exit-Over s h)
    go (some bin) e none d = rw (run_sftp_session, e, d) (exit-Over s h)
    go (some bin) e (some attr) d =
        rw (run_sftp_session, e, d)
          (sftp_started-Over hs st (start_piped m (sftp_server_cmd bin s.user.home attr) s)
            (Started-Told (start_piped-Started m (sftp_server_cmd bin s.user.home attr) s) h))

-- A handler that was started ends its session: whether the command begins or not, at the first
-- start or at the second, and whatever happens while it runs, the session has ended when the
-- handler of a shell, of a command or of sftp returns, and has sent exactly one exit message. The
-- condition: the session had sent its exit message before just if it had ended before.
pub handlers_end :
    (o : Outside) (m : Machine) (hs : List Happens) (st : Option ProcessState) (s : Session)
    → Told s
    → (((run_session o m hs st s).exited ≡ true)
        × (length (run_session o m hs st s).exit_messages ≡ 1))
      × (((run_sftp_session m hs st s).exited ≡ true)
          × (length (run_sftp_session m hs st s).exit_messages ≡ 1))
unfolding run_session run_with run_pty run_plain
handlers_end o m hs st s h = (go s.pty, run_sftp_session-Over m hs st s h)
  where
    recorded : Session
    recorded = start_recorder o.canonical o.new_recorder o.policy 80 24 s

    go : (tty : Option Bytes) → Over (run_with o m hs st tty s)
    go (some tty) =
        pty_started-Over hs st (start_in_home m (start_on_tty m tty) s)
          (start_in_home-Told m (start_on_tty m tty) s (start_on_tty-Started m tty) h)
    go none = plain_started-Over hs st (start_in_home m (start_piped m) recorded) (
        start_in_home-Told m (start_piped m) recorded (start_piped-Started m)
          (start_recorder-Told o.canonical o.new_recorder o.policy 80 24 s h))
