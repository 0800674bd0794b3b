-- ===== src/Sshd/Session/Requests.antt =====
-- internal/sshd/session.go and agent.go: the requests of a session channel.
pub mod Kept
pub mod Handled
use nokkud.Base.{
  is_empty, Bytes, codes, is_some, ℕ, Bool, true, false, not, Option, none, some, List, [], ◌&&◌,
  ◌||◌, ◌∷◌, ◌++◌, ◌==◌, if◌then◌else◌, nat_eq, bytes_eq,
}
use nokkud.Sshd.Auth.{cert_ext}
use nokkud.Sshd.Session.Process.{kill_proc, signal}
use nokkud.Sshd.Session.Recording.{start_recorder}
use nokkud.Sshd.Session.Env.{set_client_env, set_env}
use nokkud.Sshd.Policy.{Policy}
use nokkud.Sshd.Session.Finish.{record_call}
use nokkud.Sshd.Audit.{command, emit, subsystem}
use nokkud.Sshd.Session.{
  Handler, RecorderOptions, Session, closed, event, force_command, reply, resized, run, run_sftp,
  serve_agent,
}

-- What a request meets outside: the server's policy, `openPTY`, `setWinsize`, `newAgentSock`,
-- `recording.New` and `uuid.Parse`. `none` and `false` are failures, but for the recorder.
pub record Outside : Type 0 where
  pub policy : Policy
  pub open_pty : Option Bytes
  pub set_winsize : Bool
  pub new_agent_sock : Option Bytes
  pub canonical : Bytes → Bool
  pub new_recorder : RecorderOptions → Option Bytes

pub record PtyRequest : Type 0 where
  pub term : Bytes
  pub width : ℕ
  pub height : ℕ

-- `ssh.Request`, by type; a payload is `none` if it does not unmarshal.
pub data Request : Type 0 where
  shell : Request
  exec : Option Bytes → Request
  subsystem_req : Option Bytes → Request
  env_req : Option (Bytes × Bytes) → Request
  pty_req : Option PtyRequest → Request
  agent_req : Request
  window_change_req : Option (ℕ × ℕ) → Request
  signal_req : Option Bytes → Request
  unknown : Request

-- The end of `handleCommand`.
unfoldable pub accept_command : Session → Session
accept_command s = record r { log = emit r.log (record (event r command) { command = r.raw_cmd }) }
  where
    r : Session
    r = reply true (record s { handled = true })

-- `handleCommand` for a shell and for the payload of an exec.
unfoldable pub handle_command : Option (Option Bytes) → Session → Session × Bool
unfolding accept_command
handle_command payload s =
    if s.handled
    then (reply false s, false)
    else if not (is_empty (force_command s))
    then (accept_command (record s { raw_cmd = force_command s }), true)
    else elim payload [
      | none ↦ (accept_command s, true)
      | some none ↦ (reply false s, false)
      | some (some cmd) ↦ (accept_command (record s { raw_cmd = cmd }), true)
    ]

-- `acceptSubsystem`.
unfoldable pub accept_subsystem : Option Bytes → Session → Session × Bool
accept_subsystem none s = (reply false s, false)
accept_subsystem (some name) s =
    if not s.handled && (is_empty (force_command s) && name == codes "sftp")
    then (record r { log = emit r.log (record (event r subsystem) { command = name }) }, true)
    else (reply false s, false)
  where
    r : Session
    r = reply true (record s { handled = true })

-- The pty and the `TERM` of `ptyReq`.
unfoldable pub with_pty : Bytes → Bytes → Session → Session
with_pty tty term s =
    if is_empty term
    then record s { pty = some tty }
    else record s { pty = some tty; env = set_env (codes "TERM") term s.env }

-- `ptyReq` behind its first test.
unfoldable pub open_pty : Outside → PtyRequest → Session → Session
open_pty o r s = elim o.open_pty [
  | none ↦ reply false s
  | some tty ↦
      if not o.set_winsize
      then reply false s
      else reply true (
          start_recorder o.canonical o.new_recorder o.policy r.width r.height
            (with_pty tty r.term s))
]

-- `ptyReq`.
unfoldable pub handle_pty : Outside → Option PtyRequest → Session → Session
handle_pty o none s = reply false s
handle_pty o (some r) s =
    if s.handled || (is_some s.pty || not (cert_ext s.permissions (codes "permit-pty")))
    then reply false s
    else open_pty o r s

-- `windowChange`.
unfoldable pub window_change : Outside → Option (ℕ × ℕ) → Session → Session
window_change o none s = reply true s
window_change o (some (cols, rows)) s =
    if is_some s.pty && o.set_winsize
    then reply true (record s { recorder = record_call (resized cols rows) s.recorder })
    else reply true s

-- `agentRequest` of agent.go.
unfoldable pub agent_request : Outside → Session → Session × Bool
agent_request o s =
    if s.handled
    then (reply false s, false)
    else if not o.policy.allow_agent_forwarding
        || not (cert_ext s.permissions (codes "permit-agent-forwarding"))
    then (reply false s, false)
    else if is_some s.agent_sock
    then (reply true s, false)
    else elim o.new_agent_sock [
      | none ↦ (reply false s, false)
      | some sock ↦ (reply true (record s { agent_sock = some sock }), true)
    ]

-- `go` of a handler, if the request was accepted.
unfoldable pub start_handler : Handler → Session × Bool → Session
start_handler h (s, ok) = if ok then record s { started = s.started ++ (h ∷ []) } else s

-- One round of the loop of `handleRequests`.
unfoldable pub dispatch : Outside → Request → Session → Session
unfolding start_handler
dispatch o shell s = start_handler run (handle_command none s)
dispatch o (exec payload) s = start_handler run (handle_command (some payload) s)
dispatch o (subsystem_req payload) s = start_handler run_sftp (accept_subsystem payload s)
dispatch o (env_req payload) s = let (s', ok) = set_client_env payload s in reply ok s'
dispatch o (pty_req payload) s = handle_pty o payload s
dispatch o agent_req s = start_handler serve_agent (agent_request o s)
dispatch o (window_change_req payload) s = window_change o payload s
dispatch o (signal_req payload) s = signal payload s
dispatch o unknown s = reply false s

-- The loop of `handleRequests`, each request with what it meets.
unfoldable pub dispatch_all : List (Outside × Request) → Session → Session
dispatch_all [] s = s
dispatch_all ((o, r) ∷ reqs) s = dispatch_all reqs (dispatch o r s)

-- `handlerDone != nil`.
has_handler : List Handler → Bool
has_handler [] = false
has_handler (serve_agent ∷ hs) = has_handler hs
has_handler (_ ∷ hs) = true

-- `handleRequests` behind the loop, up to the wait for a handler.
unfoldable pub end_requests : Session → Session
unfolding has_handler
end_requests s =
    let k = kill_proc (record s { canceled = true }) in
    if has_handler k.started then k else record k { recorder = record_call closed k.recorder }
