-- ===== src/Client/Run.antt =====
-- internal/client/client.go, connect.go and watcher.go: the loops of the client. What the backend
-- answers, when the context ends and what is saved are arguments.
pub mod Stops
pub mod Watch
mod Tests
use nokkud.Base.{
  Bytes, ℕ, min, max, inl, inr, Bool, true, false, Option, none, some, List, [], ◌-◌, ◌*◌, ◌⊎◌,
  ◌||◌, ◌∷◌, ◌==◌, if◌then◌else◌, nat_eq, bytes_eq,
}
use nokkud.Hostcerts.Clock.{max_int64, second}
use nokkud.State.Cache.{cas}
use nokkud.Hostcerts.{HostFiles, RenewError, next_renewal, renew_host_certs}
use nokkud.Client.Sync.{daemon_rejected, Client, SyncError, SyncResponse, sync_daemon}
use nokkud.Certificate.{Certificate, PublicKey}

-- What one `syncDaemon` meets: which files can be saved, the time, and the answer.
pub record SyncCall : Type 0 where
  pub cache_saves : Bool
  pub config_saves : Bool
  pub now : ℕ
  pub answer : Option SyncResponse

-- `ConnectResponse`; a relay runs beside the loop.
pub data Received : Type 0 where
  state_update : SyncCall → Received
  relay_open : Received
  unknown : Received

-- What one round of `Run` meets: whether the dial succeeds, what the stream receives before its
-- error, whether the context is done then or while the loop waits, and the sync after the wait.
pub record Round : Type 0 where
  pub dialed : Bool
  pub received : List Received
  pub done_after : Bool
  pub done_waiting : Bool
  pub then_sync : SyncCall

-- How `Run` ends, or that its rounds are not over.
pub data Outcome : Type 0 where
  rejection stop runs_on : Outcome

unfoldable pub is_rejection : Option SyncError → Bool
is_rejection (some daemon_rejected) = true
is_rejection _ = false

module _ (parse : Bytes → Option Bytes) where
  -- One call of `syncDaemon`, and whether it returns `errDaemonRejected`.
  unfoldable pub sync : SyncCall → Client → Client × Bool
  unfolding is_rejection
  sync i c =
      let (d, err) = sync_daemon parse i.now i.cache_saves i.config_saves i.answer c in
      (d, is_rejection err)

  -- The loop of `runControlStream`, and whether it returns `errDaemonRejected`.
  unfoldable pub receive_all : List Received → Client → Client × Bool
  receive_all [] c = (c, false)
  receive_all (state_update i ∷ rs) c =
      let (d, refused) = sync i c in
      let rest = receive_all rs d in if refused then (d, true) else rest
  receive_all (relay_open ∷ rs) c = receive_all rs c
  receive_all (unknown ∷ rs) c = receive_all rs c

  -- `runControlStream`.
  unfoldable pub run_control_stream : Round → Client → Client × Bool
  run_control_stream r c = if r.dialed then receive_all r.received c else (c, false)

  -- The loop of `Run`.
  unfoldable pub run_rounds : List Round → Client → Client × Outcome
  run_rounds [] c = (c, runs_on)
  run_rounds (r ∷ rs) c =
      let (d, refused) = run_control_stream r c in
      let (e, deleted) = sync r.then_sync d in
      let rest = run_rounds rs e in
      if refused
      then (d, rejection)
      else if r.done_after || r.done_waiting
      then (d, stop)
      else if deleted
      then (e, rejection)
      else rest

  -- `Run`, after its first sync.
  unfoldable pub run_client : SyncCall → List Round → Client → Client × Outcome
  run_client first rounds c =
      let (d, refused) = sync first c in
      let rest = run_rounds rounds d in if refused then (d, rejection) else rest

-- `minRenewDelay`.
abbrev pub min_renew_delay : ℕ
min_renew_delay = 30 * second

-- `renewHostCerts`, with the files of the host certificate.
unfoldable pub renew_certs :
    (Bytes → Option PublicKey)
    → (Certificate → Bytes)
    → Bool
    → (Bytes → Option Bytes)
    → ℕ
    → Client
    → HostFiles
    → HostFiles × (Bool ⊎ RenewError)
renew_certs parse print writes sign now c files =
    renew_host_certs parse print writes sign now c.config.target_id (cas c.cache).0 files

-- `time.Until`.
abbrev until : ℕ → ℕ → ℕ
until now t = min (t - now) max_int64

-- The delay of one round of `watchCertificates`; the backoff gives the one after an error.
unfoldable pub watch_delay :
    (Bytes → Option PublicKey) → ℕ → ℕ → Client → HostFiles × (Bool ⊎ RenewError) → ℕ
watch_delay parse backoff now c (files, inr _) = backoff
watch_delay parse backoff now c (files, inl _) =
    max (until now (next_renewal parse now c.config.target_id (cas c.cache).0 files))
      min_renew_delay

-- `uploadRetryWait`, in seconds, of the code of the error, if there is one.
unfoldable pub upload_retry_wait : Option ℕ → ℕ
upload_retry_wait none = 300
upload_retry_wait (some code) = if code == 8 then 3600 else 300
