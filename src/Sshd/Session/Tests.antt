-- ===== src/Sshd/Session/Tests.antt =====
-- The theorems on sessions at concrete requests.
use nokkud.Base.{
  codes, bytes_beq, has_prefix, lookup, refl, true, none, some, List, [], ◌≤◌, ◌≡◌, ◌∷◌, ◌++◌,
  nat_eq, bytes_eq,
}
use nokkud.Sshd.Session.Recording.Identity.{recorded_as_own}
use nokkud.Sshd.Session.Recording.{start_recorder}
use nokkud.Sshd.Session.Requests.Handled.{one_command}
use nokkud.Sshd.Auth.{Permissions}
use nokkud.Sshd.Account.{Account}
use nokkud.Sshd.Audit.{ConnMeta}
use nokkud.Sshd.Policy.{default_policy}
use nokkud.Sshd.Session.{Session, serve_session}
use nokkud.Sshd.Session.Requests.{Outside, Request, dispatch_all, exec, env_req, pty_req, shell}
use nokkud.Sshd.Session.Requests.Kept.{all_fit, commands, forced}
use nokkud.Sshd.Session.Process.Signals.{
  Act, IsWaiting, signals, starts, acts, to_proc, wanted, signals_delivered,
}
use nokkud.Sshd.Session.Finish.Once.{by_process, by_error, ends, IsFirstEnd, ends_once}
use nokkud.Sshd.Session.Process.{signaled_by, signal_by_name}
use nokkud.Sshd.Session.Recording.Kept.{RecordsAs}

abbrev conn : ConnMeta
conn = record {
  user = codes "ann";
  remote_addr = codes "192.0.2.1:4000";
  local_addr = codes "192.0.2.2:22";
  client_version = codes "SSH-2.0-test";
}

abbrev perms : Permissions
perms = record {
  critical_options = [];
  extensions = (codes "force-command", codes "backup") ∷ (codes "permit-pty", []) ∷ [];
  account = none;
}

abbrev ann : Account
ann = record {
  name = codes "ann";
  uid = 1000;
  gid = 1000;
  home = codes "/home/ann";
  shell = codes "/bin/sh";
}

abbrev outside : Outside
outside = record {
  policy = default_policy;
  open_pty = some (codes "/dev/pts/3");
  set_winsize = true;
  new_agent_sock = none;
  canonical = λ id. true;
  new_recorder = λ o. none;
}

-- A recording id that a client may not choose, a pty, a command and a shell.
abbrev requests : List (Outside × Request)
requests =
    (outside, env_req (some (codes "NOKKU_SESSION_ID", codes "other")))
    ∷ (outside, pty_req (some (record { term = codes "xterm"; width = 80; height = 24 })))
    ∷ (outside, exec (some (codes "rm -rf /")))
    ∷ (outside, shell)
    ∷ []

abbrev opened : Session
opened = serve_session conn perms ann (codes "p1") (codes "id-1") []

abbrev handled : Session
handled = dispatch_all requests opened

one_command_example :
    (commands handled.started ≤ 1) × (all_fit (forced perms) handled.raw_cmd handled.started ≡ true)
one_command_example = one_command conn perms ann (codes "p1") (codes "id-1") [] requests

recorded_as_own_example :
    RecordsAs
      (codes "id-1")
      (start_recorder (λ id. true) (λ o. none) default_policy 80 24 handled).recorder
unfolding lookup codes bytes_beq has_prefix
recorded_as_own_example =
    recorded_as_own conn perms ann (codes "p1") (codes "id-1") [] requests (λ id. true) (λ o. none)
      default_policy 80 24 refl

opened-IsWaiting : IsWaiting opened
unfolding serve_session
opened-IsWaiting = record { proc = refl; want_kill = refl; pending = refl; sent = refl }

abbrev early : List Act
early = signals (some (codes "INT")) ∷ signals (some (codes "NOPE")) ∷ []

abbrev late : List Act
late = signals (some (codes "TERM")) ∷ []

signals_delivered_example :
    (acts (early ++ (starts 42 ∷ late)) opened).sent ≡ to_proc 42 (wanted early ++ wanted late)
signals_delivered_example =
    signals_delivered early late 42 opened opened-IsWaiting (tt, (tt, tt)) (tt, tt)

wanted_are : (wanted early ++ wanted late) ≡ 2 ∷ 15 ∷ []
unfolding signal_by_name lookup codes bytes_beq
wanted_are = refl

ends_once_example :
    IsFirstEnd opened (ends (by_process (some (signaled_by 15)) ∷ by_error ∷ []) opened)
unfolding serve_session
ends_once_example = ends_once (by_process (some (signaled_by 15))) (by_error ∷ []) opened refl
