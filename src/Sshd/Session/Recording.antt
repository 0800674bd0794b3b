-- ===== src/Sshd/Session/Recording.antt =====
-- internal/sshd/session.go: when a session is recorded.
pub mod Kept
pub mod Identity
use nokkud.Base.{
  Bytes, codes, is_some, get_or, pos, ℕ, Bool, not, Option, none, some, [], ◌||◌, ◌++◌,
  if◌then◌else◌,
}
use nokkud.Sshd.Session.Finish.{exit}
use nokkud.Sshd.Session.Env.{env_value}
use nokkud.Sshd.Audit.{emit, recording_degraded}
use nokkud.Sshd.Session.{RecorderOptions, Session, event}
use nokkud.Sshd.Policy.{Policy}

-- `recordingDegraded`.
unfoldable pub recording_degraded_event : Bytes → Session → Session
recording_degraded_event reason s = record s {
  log = emit s.log (record (event s recording_degraded) { error = reason });
}

-- The id under which a session is recorded; `canonical` is `canonicalUUID`.
unfoldable pub recording_id : (Bytes → Bool) → Session → Bytes
recording_id canonical s = elim (env_value (codes "NOKKU_SESSION_ID") s.env) [
  | none ↦ s.session_id
  | some id ↦ if canonical id then id else s.session_id
]

-- The options of `startRecorder`.
unfoldable pub recorder_options : (Bytes → Bool) → ℕ → ℕ → Session → RecorderOptions
recorder_options canonical width height s = record {
  width = width;
  height = height;
  title = codes "ssh-" ++ s.user.name;
  session_id = recording_id canonical s;
  user = s.user.name;
  principal = s.principal;
  term = get_or (env_value (codes "TERM") s.env) [];
}

-- `startRecorder`; `new` gives the message of `recording.New`'s error, if it fails.
unfoldable pub start_recorder :
    (Bytes → Bool) → (RecorderOptions → Option Bytes) → Policy → ℕ → ℕ → Session → Session
start_recorder canonical new policy width height s =
    let options = recorder_options canonical width height s in
    if is_some s.recorder || not policy.record_sessions then s else elim (new options) [
      | some err ↦ recording_degraded_event (codes "not recorded: " ++ err) s
      | none ↦ record s { recorder = some (record { options = options; calls = [] }) }
    ]

-- `recordingFull`. The notice to the client is left out.
unfoldable pub recording_full : Session → Session
recording_full s =
    exit (pos 1) (recording_degraded_event (codes "size limit reached, session ended") s)
