-- ===== src/Sshd/Session/Run.antt =====
-- internal/sshd/session.go and sftp.go: the command of a session. What the machine answers and what
-- happens while the command runs are arguments.
pub mod Starts
pub mod Execs
pub mod AsUser
pub mod Relayed
pub mod Ends
mod Tests
use nokkud.Base.{
  is_empty, leb, Bytes, codes, is_some, pos, ℕ, inl, inr, Bool, true, Option, none, some, List, [],
  ◌-◌, ◌⊎◌, ◌&&◌, ◌||◌, ◌∷◌, ◌++◌, if◌then◌else◌,
}
use nokkud.Sshd.Session.Env.{build_env}
use nokkud.Sshd.Session.Requests.{Outside}
use nokkud.Sshd.Command.{Cmd, SysProcAttr, sys_proc_attr}
use nokkud.Sshd.Session.Recording.{recording_full, start_recorder}
use nokkud.Sshd.Session.{Session, Stream, extended, heard, standard, typed}
use nokkud.Sshd.Session.Finish.{exit, exit_process, record_call}
use nokkud.Sshd.Session.Process.{ProcessState, kill_proc, set_proc}

-- What a start meets: whether the daemon is root, `id -G`, the daemon's environment, the addresses
-- of the connection, `filepath.Base`, `os.Executable`, the errors of the pipes, and `cmd.Start`,
-- which gives a process or an error. An error is seen by its `syscall.Errno`, if it has one.
pub record Machine : Type 0 where
  pub root : Bool
  pub id : Bytes → Option Bytes
  pub inherited : Bytes → Option Bytes
  pub split_host_port : Bytes → Bytes × Bytes
  pub base : Bytes → Bytes
  pub executable : Option Bytes
  pub stdin_pipe : Option (Option Bytes)
  pub stdout_pipe : Option (Option Bytes)
  pub start : Cmd → ℕ ⊎ Option Bytes

-- `shellCmd`.
unfoldable pub shell_cmd : Machine → Session → Option Cmd
shell_cmd m s = elim (sys_proc_attr m.root m.id s.user) [
  | none ↦ none
  | some attr ↦ some (record {
    path = s.user.shell;
    args =
        if is_empty s.raw_cmd
        then (b'-' ∷ m.base s.user.shell) ∷ []
        else m.base s.user.shell ∷ codes "-c" ∷ s.raw_cmd ∷ [];
    dir = s.user.home;
    env = build_env m.inherited m.split_host_port s;
    attr = attr;
    tty = none;
    wait_delay = 0;
  })
]

-- `cmd.Start`.
unfoldable pub start_cmd : Machine → Cmd → Session → Session × (ℕ ⊎ Option Bytes)
start_cmd m cmd s = (record s { execs = s.execs ++ (cmd ∷ []) }, m.start cmd)

-- The start that `runPTY` passes on.
unfoldable pub start_on_tty : Machine → Bytes → Cmd → Session → Session × (ℕ ⊎ Option Bytes)
unfolding start_cmd
start_on_tty m tty cmd =
    start_cmd m (record cmd { tty = some tty; attr = record cmd.attr { setctty = true } })

-- `startPiped`; the delay is in milliseconds.
unfoldable pub start_piped : Machine → Cmd → Session → Session × (ℕ ⊎ Option Bytes)
unfolding start_cmd
start_piped m cmd s = elim m.stdin_pipe [
  | some err ↦ (s, inr err)
  | none ↦ elim m.stdout_pipe [
    | some err ↦ (s, inr err)
    | none ↦ start_cmd m (record cmd { wait_delay = 1000 }) s
  ]
]

-- `strings.ToUpper(reason[:1]) + reason[1:]`; no errno has an empty text.
unfoldable pub capital : Bytes → Bytes
capital [] = []
capital (c ∷ cs) = (if leb b'a' c && leb c b'z' then c - 32 else c) ∷ cs

unfoldable pub home_notice : Bytes → Bytes → Bytes
home_notice home reason =
    codes "Could not chdir to home directory " ++ (home ++ (codes ": " ++ capital reason))

-- The second start of `startInHome`, in `/`.
unfoldable pub retry_start :
    (Cmd → Session → Session × (ℕ ⊎ Option Bytes))
    → Bytes
    → Option Cmd
    → Session
    → Session × Option (ℕ × Bytes)
retry_start start reason none s = (s, none)
retry_start start reason (some cmd) s =
    let (t, r) = start (record cmd { dir = codes "/" }) s in
    (t, elim r [ inl pid ↦ some (pid, home_notice s.user.home reason) | inr _ ↦ none ])

-- `startInHome` behind its first start.
unfoldable pub after_start :
    Machine
    → (Cmd → Session → Session × (ℕ ⊎ Option Bytes))
    → Session × (ℕ ⊎ Option Bytes)
    → Session × Option (ℕ × Bytes)
after_start m start (s, inl pid) = (s, some (pid, []))
after_start m start (s, inr none) = (s, none)
after_start m start (s, inr (some reason)) = retry_start start reason (shell_cmd m s) s

-- `startInHome`: the process and the notice.
unfoldable pub start_in_home :
    Machine
    → (Cmd → Session → Session × (ℕ ⊎ Option Bytes))
    → Session
    → Session × Option (ℕ × Bytes)
start_in_home m start s = elim (shell_cmd m s) [
  | none ↦ (s, none)
  | some cmd ↦ after_start m start (start cmd s)
]

-- The channel is closed: `finish` closes it at its end, and the client has when `handleRequests` ends
-- and cancels.
unfoldable pub is_gone : Session → Bool
is_gone s = s.exited || s.canceled

-- A write to the channel.
unfoldable pub write : Stream → Bytes → Session → Session
unfolding is_gone
write stream p s = if is_gone s then s else record s { output = s.output ++ ((stream, p) ∷ []) }

-- `recOut.Write`.
unfoldable pub rec_out : Stream → Bytes → Session → Session
unfolding write
rec_out stream p s = write stream p (record s { recorder = record_call (heard p) s.recorder })

-- Whether the copying of a stream has ended.
unfoldable pub is_stopped : Stream → Session → Bool
is_stopped standard s = s.out_stopped
is_stopped extended s = s.err_stopped

unfoldable pub stop_copy : Stream → Session → Session
stop_copy standard s = record s { out_stopped = true }
stop_copy extended s = record s { err_stopped = true }

-- A round of `io.Copy` to `recOut`: what was read is recorded, and a write that fails ends the
-- copying.
unfoldable pub copy : Stream → Bytes → Session → Session
unfolding rec_out stop_copy
copy stream p s = if is_gone s then stop_copy stream (rec_out stream p s) else rec_out stream p s

-- What happens while the command runs: a copy reads what it writes, the client types with the echo on or off, the
-- recording gets full, or the client leaves.
pub data Happens : Type 0 where
  writes : Stream → Bytes → Happens
  types : Bytes → Bool → Happens
  fills : Happens
  leaves : Happens

-- The relays of `runPTY` and of `relay`, `recordingFull` and the end of `handleRequests`.
unfoldable pub happens : Happens → Session → Session
unfolding copy is_stopped
happens (writes stream p) s = if is_stopped stream s then s else copy stream p s
happens (types p echo) s =
    if is_some s.pty && echo then record s { recorder = record_call (typed p) s.recorder } else s
happens fills s = recording_full s
happens leaves s = kill_proc (record s { canceled = true })

unfoldable pub happen : List Happens → Session → Session
happen [] s = s
happen (h ∷ hs) s = happen hs (happens h s)

-- `runPTY` and `relay` behind the start: the process, what happens, and what `Wait` tells.
unfoldable pub relay : ℕ → List Happens → Option ProcessState → Session → Session
unfolding happen
relay pid hs st s = exit_process st (happen hs (set_proc pid s))

-- `runPTY` behind `startInHome`.
unfoldable pub pty_started :
    List Happens → Option ProcessState → Session × Option (ℕ × Bytes) → Session
pty_started hs st (s, none) = exit (pos 1) s
pty_started hs st (s, some (pid, notice)) = relay pid (notice_first ++ hs) st s
  where
    notice_first : List Happens
    notice_first = if is_empty notice then [] else writes standard (notice ++ (13 ∷ 10 ∷ [])) ∷ []

-- `runPTY`.
unfoldable pub run_pty : Machine → Bytes → List Happens → Option ProcessState → Session → Session
run_pty m tty hs st s = pty_started hs st (start_in_home m (start_on_tty m tty) s)

-- `runPlain` behind `startInHome`.
unfoldable pub plain_started :
    List Happens → Option ProcessState → Session × Option (ℕ × Bytes) → Session
plain_started hs st (s, none) = exit (pos 1) s
plain_started hs st (s, some (pid, notice)) =
    relay pid hs st (if is_empty notice then s else write extended (notice ++ (10 ∷ [])) s)

-- `runPlain` behind `startRecorder`.
unfoldable pub run_plain : Machine → List Happens → Option ProcessState → Session → Session
run_plain m hs st s = plain_started hs st (start_in_home m (start_piped m) s)

-- `run`, by the terminal of the session.
unfoldable pub run_with :
    Outside → Machine → List Happens → Option ProcessState → Option Bytes → Session → Session
run_with o m hs st (some tty) s = run_pty m tty hs st s
run_with o m hs st none s =
    run_plain m hs st (start_recorder o.canonical o.new_recorder o.policy 80 24 s)

unfoldable pub run_session :
    Outside → Machine → List Happens → Option ProcessState → Session → Session
run_session o m hs st s = run_with o m hs st s.pty s

-- `sftpServerCmd` of sftp.go.
unfoldable pub sftp_server_cmd : Bytes → Bytes → SysProcAttr → Cmd
sftp_server_cmd bin home attr = record {
  path = bin;
  args = bin ∷ codes "sftp-server" ∷ home ∷ [];
  dir = home;
  env = (codes "HOME=" ++ home) ∷ [];
  attr = attr;
  tty = none;
  wait_delay = 0;
}

-- `runSFTP` of sftp.go behind its start.
unfoldable pub sftp_started :
    List Happens → Option ProcessState → Session × (ℕ ⊎ Option Bytes) → Session
sftp_started hs st (s, inr _) = exit (pos 1) s
sftp_started hs st (s, inl pid) = relay pid hs st s

-- `runSFTP` of sftp.go.
unfoldable pub run_sftp_session : Machine → List Happens → Option ProcessState → Session → Session
run_sftp_session m hs st s = elim m.executable [
  | none ↦ exit (pos 1) s
  | some bin ↦ elim (sys_proc_attr m.root m.id s.user) [
    | none ↦ exit (pos 1) s
    | some attr ↦ sftp_started hs st (start_piped m (sftp_server_cmd bin s.user.home attr) s)
  ]
]
