-- ===== src/Sshd/Audit.antt =====
-- internal/sshd/audit.go: the audit log. The log is the list of lines written, the oldest first.
use nokkud.Base.{is_empty, Bytes, codes, ℤ, pos, List, [], ◌∷◌, ◌++◌, if◌then◌else◌}

pub data EventType : Type 0 where
  auth_success auth_failure session_start session_end command subsystem : EventType
  forward remote_forward recording_degraded : EventType

-- `auditEvent`.
pub record AuditEvent : Type 0 where
  pub type : EventType
  pub user : Bytes
  pub remote : Bytes
  pub client : Bytes
  pub principal : Bytes
  pub session_id : Bytes
  pub command : Bytes
  pub target : Bytes
  pub error : Bytes
  pub exit_code : ℤ

-- `ssh.ConnMetadata`, as far as the daemon reads it.
pub record ConnMeta : Type 0 where
  pub user : Bytes
  pub remote_addr : Bytes
  pub local_addr : Bytes
  pub client_version : Bytes

-- `connEvent`.
unfoldable pub conn_event : ConnMeta → EventType → AuditEvent
conn_event conn typ = record {
  type = typ;
  user = conn.user;
  remote = conn.remote_addr;
  client = conn.client_version;
  principal = [];
  session_id = [];
  command = [];
  target = [];
  error = [];
  exit_code = pos 0;
}

-- The values of a log line.
pub data LogValue : Type 0 where
  type_name : EventType → LogValue
  text : Bytes → LogValue
  number : ℤ → LogValue

abbrev pub LogLine : Type 0
LogLine = List (Bytes × LogValue)

abbrev pub Log : Type 0
Log = List LogLine

-- The loop of `emit`: only fields with a value are logged.
text_args : List (Bytes × Bytes) → LogLine
text_args [] = []
text_args ((key, value) ∷ fields) =
    if is_empty value then text_args fields else (key, text value) ∷ text_args fields

exit_args : EventType → ℤ → LogLine
exit_args session_end code = (codes "exit_code", number code) ∷ []
exit_args _ code = []

unfoldable pub audit_line : AuditEvent → LogLine
unfolding text_args exit_args
audit_line ev =
    (codes "type", type_name ev.type) ∷ (text_args fields ++ exit_args ev.type ev.exit_code)
  where
    fields : List (Bytes × Bytes)
    fields =
        (codes "user", ev.user)
        ∷ (codes "remote", ev.remote)
        ∷ (codes "client", ev.client)
        ∷ (codes "principal", ev.principal)
        ∷ (codes "session_id", ev.session_id)
        ∷ (codes "command", ev.command)
        ∷ (codes "target", ev.target)
        ∷ (codes "error", ev.error)
        ∷ []

-- `emit`.
unfoldable pub emit : Log → AuditEvent → Log
emit log ev = log ++ (audit_line ev ∷ [])
