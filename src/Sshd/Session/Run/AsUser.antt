-- ===== src/Sshd/Session/Run/AsUser.antt =====
-- The commands of a session are those of its user, and of its forced command if there is one.
use nokkud.Base.{
  is_empty, Option-cases, Bytes, codes, pos, ℕ, refl, inl, inr, Bool, true, false, Option, none,
  some, List, [], arith, ◌≡◌, ◌∷◌,
}
use nokkud.Sshd.Session.Run.Execs.{
  exit-execs, plain_started-execs, pty_started-execs, sftp_started-execs,
}
use nokkud.Sshd.Account.{Account}
use nokkud.Sshd.Session.Requests.{Outside, handle_command, accept_command}
use nokkud.Sshd.Policy.{Policy}
use nokkud.Sshd.Session.{RecorderOptions, Session, force_command}
use nokkud.Sshd.Session.Process.{ProcessState}
use nokkud.Sshd.Command.{Credential, SysProcAttr, group_ids, sys_proc_attr}
use nokkud.Sshd.Session.Run.{
  Happens, Machine, run_pty, start_in_home, start_on_tty, run_plain, run_session, start_piped,
  run_sftp_session, run_with, sftp_server_cmd,
}
use nokkud.Sshd.Session.Run.Starts.{
  GoodExecs, GoodShell, start_in_home-Good, start_on_tty-Started, start_piped-Started, shell_args,
  Started-GoodExecs,
}
use nokkud.Sshd.Session.Recording.{recording_degraded_event, start_recorder}

record Same (s t : Session) : Type 0 where
  user : t.user ≡ s.user
  raw_cmd : t.raw_cmd ≡ s.raw_cmd
  execs : t.execs ≡ s.execs

start_recorder-Same :
    (canonical : Bytes → Bool) (new : RecorderOptions → Option Bytes) (policy : Policy) (w h : ℕ)
    (s : Session)
    → Same s (start_recorder canonical new policy w h s)
unfolding start_recorder recording_degraded_event
start_recorder-Same canonical new policy w h s = record {
  user = ground arith;
  raw_cmd = ground arith;
  execs = ground arith;
}

module _ (Good : Bytes → List Bytes → Option Credential → Type 0) (m : Machine) where
  run_pty-Good :
      (tty : Bytes) (hs : List Happens) (st : Option ProcessState) (s : Session)
      → GoodShell Good m s
      → GoodExecs Good s
      → GoodExecs Good (run_pty m tty hs st s)
  unfolding run_pty
  run_pty-Good tty hs st s g h =
      rw (pty_started-execs hs st (start_in_home m (start_on_tty m tty) s))
        (start_in_home-Good Good m (start_on_tty m tty) s (start_on_tty-Started m tty) g h)

  run_plain-Good :
      (hs : List Happens) (st : Option ProcessState) (s : Session)
      → GoodShell Good m s
      → GoodExecs Good s
      → GoodExecs Good (run_plain m hs st s)
  unfolding run_plain
  run_plain-Good hs st s g h =
      rw (plain_started-execs hs st (start_in_home m (start_piped m) s))
        (start_in_home-Good Good m (start_piped m) s (start_piped-Started m) g h)

  GoodShell-Same : {s t : Session} → Same s t → GoodShell Good m s → GoodShell Good m t
  GoodShell-Same e g = rw (e.user, e.raw_cmd) g

  pub run_session-Good :
      (o : Outside) (hs : List Happens) (st : Option ProcessState) (s : Session)
      → GoodShell Good m s
      → GoodExecs Good s
      → GoodExecs Good (run_session o m hs st s)
  unfolding run_session run_with
  run_session-Good o hs st s g h = go s.pty
    where
      recorded : Session
      recorded = start_recorder o.canonical o.new_recorder o.policy 80 24 s

      kept : Same s recorded
      kept = start_recorder-Same o.canonical o.new_recorder o.policy 80 24 s

      go : (tty : Option Bytes) → GoodExecs Good (run_with o m hs st tty s)
      go (some tty) = run_pty-Good tty hs st s g h
      go none = run_plain-Good hs st recorded (GoodShell-Same kept g) (rw (kept.execs) h)

  run_sftp_session-Good :
      (hs : List Happens) (st : Option ProcessState) (s : Session)
      → ((attr : SysProcAttr)
          → sys_proc_attr m.root m.id s.user ≡ some attr
          → (path : Bytes) (l : List Bytes) → Good path l attr.credential)
      → GoodExecs Good s
      → GoodExecs Good (run_sftp_session m hs st s)
  unfolding run_sftp_session sftp_server_cmd
  run_sftp_session-Good hs st s g h = go m.executable refl (sys_proc_attr m.root m.id s.user) refl
    where
      go :
          (bin : Option Bytes)
          → m.executable ≡ bin
          → (attr : Option SysProcAttr) → sys_proc_attr m.root m.id s.user ≡ attr
          → GoodExecs Good (run_sftp_session m hs st s)
      go none e attr d = rw (run_sftp_session, e, exit-execs (pos 1) s) h
      go (some bin) e none d = rw (run_sftp_session, e, d, exit-execs (pos 1) s) h
      go (some bin) e (some attr) d =
          rw
            (
              run_sftp_session,
              e,
              d,
              sftp_started-execs hs st (start_piped m (sftp_server_cmd bin s.user.home attr) s),
            )
            (Started-GoodExecs Good (start_piped-Started m (sftp_server_cmd bin s.user.home attr) s)
              (g attr d bin (bin ∷ codes "sftp-server" ∷ s.user.home ∷ [])) h)

-- A command that runs with the credential of a user.
abbrev pub AsUser : Machine → Account → Bytes → List Bytes → Option Credential → Type 0
AsUser m a _ _ credential =
    (groups : List ℕ) × ((group_ids m.id a ≡ some groups)
      × (credential ≡ some (record { uid = a.uid; gid = a.gid; groups = groups })))

sys_proc_attr-AsUser :
    (m : Machine) (a : Account) (attr : SysProcAttr) (path : Bytes) (l : List Bytes)
    → m.root ≡ true
    → sys_proc_attr m.root m.id a ≡ some attr
    → AsUser m a path l attr.credential
unfolding sys_proc_attr
sys_proc_attr-AsUser m a attr path l root e = elim (Option-cases (group_ids m.id a)) [
  | inl d ↦ absurd (ground arith)
  | inr (groups, d) ↦ (groups, (d, ground arith))
]

-- On a daemon that runs as root, every command that a session starts, as shell, command or sftp
-- server, at the first start or at the second, with a terminal or with pipes, runs with the uid and
-- the gid of the session's user and the groups that `id -G` gives for it, whatever happens while it
-- runs. The condition on the commands before: none is there, or they run so too.
pub credentials_of_commands :
    (o : Outside) (m : Machine) (hs : List Happens) (st : Option ProcessState) (s : Session)
    → m.root ≡ true
    → GoodExecs (AsUser m s.user) s
    → GoodExecs (AsUser m s.user) (run_session o m hs st s)
      × GoodExecs (AsUser m s.user) (run_sftp_session m hs st s)
credentials_of_commands o m hs st s root h = (
  run_session-Good (AsUser m s.user) m o hs st s
      (λ attr e. sys_proc_attr-AsUser m s.user attr s.user.shell (shell_args m s) root e) h,
  run_sftp_session-Good (AsUser m s.user) m hs st s
      (λ attr e path l. sys_proc_attr-AsUser m s.user attr path l root e) h,
)

-- The only command that a session with a forced command runs.
abbrev pub Forced : Bytes → Account → Machine → Bytes → List Bytes → Option Credential → Type 0
Forced cmd a m path args _ = (path ≡ a.shell) × (args ≡ m.base a.shell ∷ codes "-c" ∷ cmd ∷ [])

forced_shell :
    (payload : Option (Option Bytes)) (s : Session)
    → is_empty (force_command s) ≡ false
    → (handle_command payload s).1 ≡ true
    → ((handle_command payload s).0.raw_cmd ≡ force_command s)
      × (((handle_command payload s).0.user ≡ s.user)
          × ((handle_command payload s).0.execs ≡ s.execs))
unfolding handle_command accept_command
forced_shell payload s f accepted = (ground arith, (ground arith, ground arith))

-- Whatever the shell or exec request of a session with a forced command asks for, if it is accepted
-- then every command that the session runs is the user's shell, by its path, with the arguments for
-- the forced command.
pub restricted_session_runs :
    (payload : Option (Option Bytes)) (o : Outside) (m : Machine) (hs : List Happens)
    (st : Option ProcessState) (s : Session)
    → is_empty (force_command s) ≡ false
    → s.execs ≡ []
    → (handle_command payload s).1 ≡ true
    → GoodExecs
        (Forced (force_command s) s.user m)
        (run_session o m hs st (handle_command payload s).0)
restricted_session_runs payload o m hs st s f first accepted =
    let (raw, (user, execs)) = forced_shell payload s f accepted in
    run_session-Good (Forced (force_command s) s.user m) m o hs st (handle_command payload s).0
      (λ attr e. (ground (arith, user), ground (arith, f, raw, user))) (rw (execs, first) tt)
