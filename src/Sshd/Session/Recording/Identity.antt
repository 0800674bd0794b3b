-- ===== src/Sshd/Session/Recording/Identity.antt =====
-- The environment and the recording id of a session, whatever its client requests.
use nokkud.Sshd.Session.Env.Safe.{IsEntry}
use nokkud.Base.{All, Bytes, ℕ, refl, Bool, false, Option, none, some, List, [], arith, ◌≡◌, ◌∷◌}
use nokkud.Sshd.Account.{Account}
use nokkud.Sshd.Auth.{Permissions}
use nokkud.Sshd.Session.Process.{signal}
use nokkud.Sshd.Session.Recording.{start_recorder}
use nokkud.Sshd.Session.Env.{set_client_env}
use nokkud.Sshd.Policy.{Policy}
use nokkud.Sshd.Audit.{ConnMeta, Log}
use nokkud.Sshd.Session.{RecorderOptions, Session, run, run_sftp, serve_agent, serve_session}
use nokkud.Sshd.Session.Recording.Kept.{
  Inv, RecordsAs, Same, Same-Inv, handle_pty-Inv, is_web, reply-Inv, set_client_env-Inv,
  start_recorder-Inv, window_change-Inv,
}
use nokkud.Sshd.Session.Requests.{
  Outside, Request, accept_subsystem, agent_req, agent_request, dispatch, dispatch_all, env_req,
  exec, handle_command, pty_req, shell, signal_req, start_handler, subsystem_req, unknown,
  window_change_req,
}

module _ (s : Session) where
  command-Same : (h : Option (Option Bytes)) → Same s (start_handler run (handle_command h s))
  unfolding start_handler handle_command
  command-Same h = ground arith

  subsystem-Same : (name : Option Bytes) → Same s (start_handler run_sftp (accept_subsystem name s))
  unfolding start_handler accept_subsystem
  subsystem-Same none = ground arith
  subsystem-Same (some name) = ground arith

  agent-Same : (o : Outside) → Same s (start_handler serve_agent (agent_request o s))
  unfolding start_handler agent_request
  agent-Same o = ground arith

  signal-Same : (name : Option Bytes) → Same s (signal name s)
  unfolding signal
  signal-Same none = ground arith
  signal-Same (some name) = ground arith

module _ {p : Permissions} {id : Bytes} where
  dispatch-Inv : (o : Outside) (r : Request) (s : Session) → Inv p id s → Inv p id (dispatch o r s)
  unfolding dispatch
  dispatch-Inv o shell s v = Same-Inv (command-Same s none) v
  dispatch-Inv o (exec c) s v = Same-Inv (command-Same s (some c)) v
  dispatch-Inv o (subsystem_req c) s v = Same-Inv (subsystem-Same s c) v
  dispatch-Inv o (env_req e) s v =
      reply-Inv (set_client_env e s).1 (set_client_env e s).0 (set_client_env-Inv e s v)
  dispatch-Inv o (pty_req r) s v = handle_pty-Inv o r s v
  dispatch-Inv o agent_req s v = Same-Inv (agent-Same s o) v
  dispatch-Inv o (window_change_req w) s v = window_change-Inv o w s v
  dispatch-Inv o (signal_req n) s v = Same-Inv (signal-Same s n) v
  dispatch-Inv o unknown s v = reply-Inv false s v

  dispatch_all-Inv :
      (l : List (Outside × Request)) (s : Session) → Inv p id s → Inv p id (dispatch_all l s)
  unfolding dispatch_all
  dispatch_all-Inv [] s v = v
  dispatch_all-Inv ((o, r) ∷ l) s v = dispatch_all-Inv l (dispatch o r s) (dispatch-Inv o r s v)

module _ (conn : ConnMeta) (p : Permissions) (user : Account) (principal id : Bytes) (log : Log)
    (l : List (Outside × Request)) where
  start-Inv : Inv p id (serve_session conn p user principal id log)
  unfolding serve_session
  start-Inv = record { permissions = refl; session_id = refl; entries = tt; recorded = λ b. tt }

  -- Whatever a client requests, each entry of the environment it builds is an allowed name with a
  -- value, and the name of a recording is among them only in a web session.
  pub env_entries :
      All (IsEntry (is_web p)) (dispatch_all l (serve_session conn p user principal id log)).env
  env_entries = (dispatch_all-Inv l _ start-Inv).entries

  -- Outside a web session, a recording that a request or then the command starts goes by the
  -- session's own id, whatever the client requests.
  pub recorded_as_own :
      (canonical : Bytes → Bool) (new : RecorderOptions → Option Bytes) (policy : Policy) (w h : ℕ)
      → is_web p ≡ false
      → RecordsAs id
          (start_recorder canonical new policy w h
            (dispatch_all l (serve_session conn p user principal id log))).recorder
  recorded_as_own canonical new policy w h b =
      (start_recorder-Inv canonical new policy w h _ (dispatch_all-Inv l _ start-Inv)).recorded b
