-- ===== src/Sshd/Session/Requests/Handled.antt =====
-- One command for each session, and what it is allowed to be.
use mathlib.Core.Path.{subst}
use nokkud.Base.{
  Bool-cases, Bytes, bytes_beq_iff, refl, ap, inl, inr, Bool, true, false, Option, none, some, List,
  [], arith, ◌≤◌, ◌≡◌, ◌∙◌, ◌⊎◌, ◌∷◌, ◌++◌, if◌then◌else◌,
}
use nokkud.Sshd.Account.{Account}
use nokkud.Sshd.Auth.{Permissions}
use nokkud.Sshd.Audit.{ConnMeta, Log}
use nokkud.Sshd.Session.{Handler, Session, force_command, run, run_sftp, serve_agent, serve_session}
use nokkud.Sshd.Session.Requests.Kept.{
  Inv, Keeps, Keeps-Inv, all_fit, all_fit-append, all_fit-commands, commands, commands-append,
  env_reply-Keeps, fits, forced, handle_pty-Keeps, signal-Keeps, window_change-Keeps,
}
use nokkud.Sshd.Session.Requests.{
  Outside, Request, accept_subsystem, agent_req, agent_request, dispatch, dispatch_all, env_req,
  exec, handle_command, pty_req, shell, signal_req, start_handler, subsystem_req, unknown,
  window_change_req,
}

-- What accepting a handler does: nothing but the reply where it is refused, else the session had
-- none before and the handler fits the new command.
record Takes (h : Handler) (s t : Session) : Type 0 where
  permissions : t.permissions ≡ s.permissions
  started : t.started ≡ s.started
  was_free : s.handled ≡ false
  handled : t.handled ≡ true
  fit : fits (forced s.permissions) t.raw_cmd h ≡ true

abbrev Offers : Handler → Session → Session × Bool → Type 0
Offers h s (t, ok) = ((ok ≡ false) × Keeps s t) ⊎ ((ok ≡ true) × Takes h s t)

Takes-Inv :
    {p : Permissions} (h : Handler) (s t : Session)
    → commands (h ∷ []) ≡ 1
    → Takes h s t
    → Inv p s
    → Inv p (record t { started = t.started ++ (h ∷ []) })
Takes-Inv {p} h s t n k v =
    let free : commands s.started ≡ 0 = v.one ∙ ap (λ (b : Bool). if b then 1 else 0) k.was_free in
    record {
      permissions = k.permissions ∙ v.permissions;
      one = rw (k.started, k.handled) (omega (arith, commands-append s.started (h ∷ []), free, n));
      fit =
          rw (k.started, all_fit-append (forced p) t.raw_cmd s.started (h ∷ []))
            (ground (
              arith,
              v.fit,
              all_fit-commands (forced p) t.raw_cmd s.raw_cmd s.started free,
              subst (λ q. fits (forced q) t.raw_cmd h ≡ true) v.permissions k.fit,
            ));
    }

Offers-Inv :
    {p : Permissions} (h : Handler) (s : Session) (r : Session × Bool)
    → commands (h ∷ []) ≡ 1
    → Offers h s r
    → Inv p s
    → Inv p (start_handler h r)
unfolding start_handler
Offers-Inv h s (t, ok) n (inl (e, k)) v = rw e (Keeps-Inv k v)
Offers-Inv h s (t, ok) n (inr (e, k)) v = rw e (Takes-Inv h s t n k v)

module _ (s : Session) where
  command-Offers : (h : Option (Option Bytes)) → Offers run s (handle_command h s)
  unfolding handle_command force_command
  command-Offers h = ground (arith, bytes_beq_iff (forced s.permissions) (forced s.permissions))

  subsystem-Offers : (name : Option Bytes) → Offers run_sftp s (accept_subsystem name s)
  unfolding accept_subsystem force_command
  subsystem-Offers none = ground arith
  subsystem-Offers (some name) = ground arith

  agent-Offers : (o : Outside) → Keeps s (agent_request o s).0
  unfolding agent_request
  agent-Offers o = ground arith

agent-Inv :
    {p : Permissions} (o : Outside) (s : Session)
    → Inv p s
    → Inv p (start_handler serve_agent (agent_request o s))
unfolding start_handler
agent-Inv {p} o s v =
    let t = (agent_request o s).0 in
    let k = agent-Offers s o in
    let w = Keeps-Inv k v in
    elim (Bool-cases (agent_request o s).1) [
      | inl e ↦ rw e (record {
        permissions = w.permissions;
        one = omega (arith, w.one, commands-append t.started (serve_agent ∷ []));
        fit =
            ground (arith, w.fit, all_fit-append (forced p) t.raw_cmd t.started (serve_agent ∷ []));
      })
      | inr e ↦ rw e w
    ]

dispatch-Inv :
    {p : Permissions} (o : Outside) (r : Request) (s : Session) → Inv p s → Inv p (dispatch o r s)
unfolding dispatch
dispatch-Inv o shell s v = Offers-Inv run s _ refl (command-Offers s none) v
dispatch-Inv o (exec c) s v = Offers-Inv run s _ refl (command-Offers s (some c)) v
dispatch-Inv o (subsystem_req c) s v = Offers-Inv run_sftp s _ refl (subsystem-Offers s c) v
dispatch-Inv o (env_req e) s v = Keeps-Inv (env_reply-Keeps e s) v
dispatch-Inv o (pty_req r) s v = Keeps-Inv (handle_pty-Keeps o r s) v
dispatch-Inv o agent_req s v = agent-Inv o s v
dispatch-Inv o (window_change_req r) s v = Keeps-Inv (window_change-Keeps o r s) v
dispatch-Inv o (signal_req n) s v = Keeps-Inv (signal-Keeps n s) v
dispatch-Inv o unknown s v = record { permissions = v.permissions; one = v.one; fit = v.fit }

dispatch_all-Inv :
    {p : Permissions} (l : List (Outside × Request)) (s : Session)
    → Inv p s
    → Inv p (dispatch_all l s)
unfolding dispatch_all
dispatch_all-Inv [] s v = v
dispatch_all-Inv ((o, r) ∷ l) s v = dispatch_all-Inv l (dispatch o r s) (dispatch-Inv o r s v)

-- Whatever requests a client sends in a session, at most one command or SFTP server is started,
-- and with a forced command it is that command, never another and never SFTP.
pub one_command :
    (conn : ConnMeta) (p : Permissions) (user : Account) (principal id : Bytes) (log : Log)
    (l : List (Outside × Request))
    → let s = dispatch_all l (serve_session conn p user principal id log) in
      (commands s.started ≤ 1) × (all_fit (forced p) s.raw_cmd s.started ≡ true)
unfolding serve_session
one_command conn p user principal id log l =
    let v =
      dispatch_all-Inv l (serve_session conn p user principal id log)
        (record { permissions = refl; one = refl; fit = refl }) in
    (ground (arith, v.one), v.fit)
