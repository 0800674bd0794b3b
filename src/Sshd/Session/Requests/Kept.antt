-- ===== src/Sshd/Session/Requests/Kept.antt =====
-- The handlers that a session has started, and the requests that start none.

use nokkud.Base.{
  is_empty, all, Bytes, codes, lookup, get_or, ℕ, suc, refl, Bool, true, Option, none, some, List,
  [], arith, ◌+◌, ◌≡◌, ◌∙◌, ◌&&◌, ◌||◌, ◌∷◌, ◌++◌, ◌==◌, if◌then◌else◌, nat_eq, bytes_eq,
}
use nokkud.Sshd.Session.Recording.{recording_degraded_event, start_recorder}
use nokkud.Sshd.Session.Process.{signal}
use nokkud.Sshd.Session.Env.{set_client_env}
use nokkud.Sshd.Policy.{Policy}
use nokkud.Sshd.Session.Requests.{
  Outside, PtyRequest, handle_pty, window_change, open_pty, with_pty,
}
use nokkud.Sshd.Auth.{Permissions}
use nokkud.Sshd.Session.{Handler, RecorderOptions, Session, run, run_sftp, serve_agent, reply}

-- How many handlers run a command or the SFTP server.
abbrev pub commands : List Handler → ℕ
commands [] = 0
commands (serve_agent ∷ l) = commands l
commands (_ ∷ l) = suc (commands l)

pub commands-append : (l m : List Handler) → commands (l ++ m) ≡ commands l + commands m
commands-append [] m = omega arith
commands-append (run ∷ l) m = omega (arith, commands-append l m)
commands-append (run_sftp ∷ l) m = omega (arith, commands-append l m)
commands-append (serve_agent ∷ l) m = omega (arith, commands-append l m)

-- What a started handler may be: with a forced command, only that command.
abbrev pub fits : Bytes → Bytes → Handler → Bool
fits fc raw run = is_empty fc || raw == fc
fits fc raw run_sftp = is_empty fc
fits fc raw serve_agent = true

abbrev pub all_fit : Bytes → Bytes → List Handler → Bool
all_fit fc raw = all (fits fc raw)

pub all_fit-append :
    (fc raw : Bytes) (l m : List Handler)
    → all_fit fc raw (l ++ m) ≡ (all_fit fc raw l && all_fit fc raw m)
all_fit-append fc raw [] m = refl
all_fit-append fc raw (h ∷ l) m = ground (arith, all_fit-append fc raw l m)

-- With no command started yet, the handlers fit whatever the command will be.
pub all_fit-commands :
    (fc raw raw' : Bytes) (l : List Handler) → commands l ≡ 0 → all_fit fc raw l ≡ all_fit fc raw' l
all_fit-commands fc raw raw' [] h = refl
all_fit-commands fc raw raw' (serve_agent ∷ l) h = ground (arith, all_fit-commands fc raw raw' l h)
all_fit-commands fc raw raw' (run ∷ l) h = absurd (omega arith)
all_fit-commands fc raw raw' (run_sftp ∷ l) h = absurd (omega arith)

-- The forced command of a login.
abbrev pub forced : Permissions → Bytes
forced p = get_or (lookup (codes "force-command") p.extensions) []

pub record Inv (p : Permissions) (s : Session) : Type 0 where
  pub permissions : s.permissions ≡ p
  pub one : commands s.started ≡ (if s.handled then 1 else 0)
  pub fit : all_fit (forced p) s.raw_cmd s.started ≡ true

-- What the other requests leave alone.
pub record Keeps (s t : Session) : Type 0 where
  pub permissions : t.permissions ≡ s.permissions
  pub started : t.started ≡ s.started
  pub handled : t.handled ≡ s.handled
  pub raw_cmd : t.raw_cmd ≡ s.raw_cmd

pub env_reply-Keeps :
    (e : Option (Bytes × Bytes)) (s : Session)
    → Keeps s (reply (set_client_env e s).1 (set_client_env e s).0)
unfolding set_client_env
env_reply-Keeps none s = record {
  permissions = refl;
  started = refl;
  handled = refl;
  raw_cmd = refl;
}
env_reply-Keeps (some (n, v)) s = ground arith

start_recorder-Keeps :
    (c : Bytes → Bool) (new : RecorderOptions → Option Bytes) (policy : Policy) (w h : ℕ)
    (s : Session)
    → Keeps s (start_recorder c new policy w h s)
unfolding start_recorder recording_degraded_event
start_recorder-Keeps c new policy w h s = ground arith

open_pty-Keeps : (o : Outside) (r : PtyRequest) (s : Session) → Keeps s (open_pty o r s)
unfolding open_pty with_pty
open_pty-Keeps o r s = grind (arith, start_recorder-Keeps)

pub handle_pty-Keeps :
    (o : Outside) (r : Option PtyRequest) (s : Session) → Keeps s (handle_pty o r s)
unfolding handle_pty
handle_pty-Keeps o none s = record {
  permissions = refl;
  started = refl;
  handled = refl;
  raw_cmd = refl;
}
handle_pty-Keeps o (some r) s = ground (arith, open_pty-Keeps o r s)

pub window_change-Keeps :
    (o : Outside) (r : Option (ℕ × ℕ)) (s : Session) → Keeps s (window_change o r s)
unfolding window_change
window_change-Keeps o none s = ground arith
window_change-Keeps o (some r) s = ground arith

pub signal-Keeps : (n : Option Bytes) (s : Session) → Keeps s (signal n s)
unfolding signal
signal-Keeps none s = ground arith
signal-Keeps (some n) s = ground arith

pub Keeps-Inv : {p : Permissions} {s t : Session} → Keeps s t → Inv p s → Inv p t
Keeps-Inv {p} k v = record {
  permissions = k.permissions ∙ v.permissions;
  one = rw (k.started, k.handled) v.one;
  fit = rw (k.started, k.raw_cmd) v.fit;
}
