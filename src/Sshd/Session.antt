-- ===== src/Sshd/Session.antt =====
-- internal/sshd/session.go: the state of a session and the helpers that read it.
pub mod Env
pub mod Process
pub mod Finish
pub mod Recording
pub mod Requests
pub mod Run
mod Tests
use nokkud.Base.{
  Bytes, codes, has_prefix, lookup, get_or, ℤ, ℕ, Bool, false, Option, none, List, [], ◌∷◌, ◌++◌,
  nat_eq, bytes_eq,
}
use nokkud.Sshd.Auth.{Permissions}
use nokkud.Sshd.Command.{Cmd}
use nokkud.Sshd.Account.{Account}
use nokkud.Sshd.Audit.{AuditEvent, ConnMeta, EventType, Log, conn_event, emit, session_start}

-- `recording.Options`, as far as a session sets them.
pub record RecorderOptions : Type 0 where
  pub width : ℕ
  pub height : ℕ
  pub title : Bytes
  pub session_id : Bytes
  pub user : Bytes
  pub principal : Bytes
  pub term : Bytes

-- The calls that a session makes on its recorder.
pub data RecorderCall : Type 0 where
  heard : Bytes → RecorderCall
  typed : Bytes → RecorderCall
  resized : ℕ → ℕ → RecorderCall
  ended : ℤ → RecorderCall
  closed : RecorderCall

pub record Recorder : Type 0 where
  pub options : RecorderOptions
  pub calls : List RecorderCall

-- The functions that a request starts in a goroutine of their own.
pub data Handler : Type 0 where
  run run_sftp serve_agent : Handler

-- What `finish` sends last.
pub data ExitMessage : Type 0 where
  exit_status : ℕ → ExitMessage
  exit_signal : Bytes → ExitMessage

-- What a process is sent: a signal of the client, or `Kill`.
pub data Sent : Type 0 where
  signaled : ℕ → ℕ → Sent
  killed : ℕ → Sent

-- Where a channel takes data.
pub data Stream : Type 0 where
  standard extended : Stream

-- `session`. The channel, the goroutines, the process table and the log are seen by what the session
-- sends to them: `replies`, `started`, `execs`, `output`, `sent`, `exit_messages` and `log`, the
-- oldest first. `out_stopped` and `err_stopped` say that the copying of the command's output has
-- ended, since a write failed.
pub record Session : Type 0 where
  pub conn : ConnMeta
  pub permissions : Permissions
  pub user : Account
  pub principal : Bytes
  pub session_id : Bytes
  pub canceled : Bool
  pub env : List Bytes
  pub raw_cmd : Bytes
  pub handled : Bool
  pub agent_sock : Option Bytes
  pub pty : Option Bytes
  pub recorder : Option Recorder
  pub exited : Bool
  pub proc : Option ℕ
  pub want_kill : Bool
  pub pending_signals : List ℕ
  pub replies : List Bool
  pub started : List Handler
  pub execs : List Cmd
  pub output : List (Stream × Bytes)
  pub out_stopped : Bool
  pub err_stopped : Bool
  pub sent : List Sent
  pub exit_messages : List ExitMessage
  pub log : Log

-- `event`.
unfoldable pub event : Session → EventType → AuditEvent
event s typ = record (conn_event s.conn typ) { session_id = s.session_id; user = s.user.name }

-- `serveSession` up to the request loop, with the new session id.
unfoldable pub serve_session : ConnMeta → Permissions → Account → Bytes → Bytes → Log → Session
unfolding event
serve_session conn permissions user principal session_id log = record s {
  log = emit log (event s session_start);
}
  where
    s : Session
    s = record {
      conn = conn;
      permissions = permissions;
      user = user;
      principal = principal;
      session_id = session_id;
      canceled = false;
      env = [];
      raw_cmd = [];
      handled = false;
      agent_sock = none;
      pty = none;
      recorder = none;
      exited = false;
      proc = none;
      want_kill = false;
      pending_signals = [];
      replies = [];
      started = [];
      execs = [];
      output = [];
      out_stopped = false;
      err_stopped = false;
      sent = [];
      exit_messages = [];
      log = log;
    }

-- `req.Reply`.
abbrev pub reply : Bool → Session → Session
reply b s = record s { replies = s.replies ++ (b ∷ []) }

-- `forceCommand`.
unfoldable pub force_command : Session → Bytes
force_command s = get_or (lookup (codes "force-command") s.permissions.extensions) []

-- `webSession`.
unfoldable pub web_session : Session → Bool
web_session s =
    has_prefix (get_or (lookup (codes "nokku-cert-key-id") s.permissions.extensions) [])
      (codes "nokku:web:session:")
