-- ===== src/Sshd/Session/Run/Tests.antt =====
-- A session of the user `al` on a daemon of root, whose home directory is gone.
use nokkud.Base.{
  length, codes, bytes_beq, lookup, pos, refl, inl, inr, true, false, none, some, List, [], map,
  ◌≡◌, ◌∷◌, ◌==◌, if◌then◌else◌, nat_eq, bytes_eq,
}
use nokkud.Sshd.Session.Run.Ends.{handlers_end}
use nokkud.Sshd.Session.Recording.{recorder_options}
use nokkud.Sshd.Session.Run.Relayed.{echoed_by, heard_in, relay_recorded, typed_in, written_by}
use nokkud.Sshd.Session.Run.AsUser.{
  AsUser, credentials_of_commands, Forced, restricted_session_runs,
}
use nokkud.Sshd.Policy.{default_policy}
use nokkud.Sshd.Account.{Account, is_space, parse_uint32}
use nokkud.Sshd.Session.Requests.{Outside, accept_command, handle_command}
use nokkud.Sshd.Session.Run.Starts.{GoodExecs}
use nokkud.Sshd.Session.Process.{exited_with, kill_proc}
use nokkud.Sshd.Command.{group_ids}
use nokkud.Sshd.Session.Run.{
  Happens, Machine, leaves, run_session, run_sftp_session, types, writes, relay, copy, happen,
  happens, is_gone, is_stopped, rec_out, stop_copy, write,
}
use nokkud.Sshd.Session.{Session, extended, serve_session, standard, Recorder, force_command}

abbrev al : Account
al = record {
  name = codes "al";
  uid = 1001;
  gid = 100;
  home = codes "/home/al";
  shell = codes "/bin/sh";
}

abbrev machine : Machine
machine = record {
  root = true;
  id = λ name. some (codes "100 27\n");
  inherited = λ key. none;
  split_host_port = λ a. (a, []);
  base = λ path. codes "sh";
  executable = some (codes "/usr/bin/nokkud");
  stdin_pipe = none;
  stdout_pipe = none;
  start = λ cmd. if cmd.dir == codes "/" then inl 7 else inr (some (codes "no such file"));
}

abbrev machine_outside : Outside
machine_outside = record {
  policy = default_policy;
  open_pty = some (codes "/dev/pts/3");
  set_winsize = true;
  new_agent_sock = none;
  canonical = λ id. true;
  new_recorder = λ options. none;
}

abbrev al_session : Session
al_session =
    serve_session
      (record {
        user = codes "al";
        remote_addr = codes "192.0.2.1:4000";
        local_addr = codes "192.0.2.2:22";
        client_version = codes "SSH-2.0-test";
      })
      (record {
        critical_options = [];
        extensions = (codes "force-command", codes "backup") ∷ [];
        account = none;
      })
      al (codes "admin") (codes "id") []

-- What happens while the client stays.
abbrev stays : List Happens
stays =
    writes standard (codes "a")
    ∷ types (codes "k") true
    ∷ types (codes "pw") false
    ∷ writes extended (codes "b")
    ∷ []

abbrev life : List Happens
life =
    writes standard (codes "a")
    ∷ types (codes "k") true
    ∷ types (codes "pw") false
    ∷ writes extended (codes "b")
    ∷ leaves
    ∷ []

groups_example : group_ids machine.id al ≡ some (100 ∷ 27 ∷ [])
unfolding group_ids codes is_space parse_uint32
groups_example = refl

credentials_of_commands_example :
    GoodExecs
      (AsUser machine al)
      (run_session machine_outside machine life (some (exited_with (pos 0))) al_session)
    × GoodExecs
        (AsUser machine al)
        (run_sftp_session machine life (some (exited_with (pos 0))) al_session)
unfolding serve_session
credentials_of_commands_example =
    credentials_of_commands machine_outside machine life (some (exited_with (pos 0))) al_session
      refl tt

restricted_session_runs_example :
    GoodExecs (Forced (force_command al_session) al_session.user machine) (
      run_session machine_outside machine life
        (some (exited_with (pos 0)))
        (handle_command (some (some (codes "id"))) al_session).0)
unfolding serve_session force_command handle_command codes bytes_beq lookup accept_command
restricted_session_runs_example =
    restricted_session_runs (some (some (codes "id"))) machine_outside machine life
      (some (exited_with (pos 0))) al_session refl refl refl

handlers_end_example :
    (((run_session machine_outside machine life none al_session).exited ≡ true)
      × (length (run_session machine_outside machine life none al_session).exit_messages ≡ 1))
    × (((run_sftp_session machine life none al_session).exited ≡ true)
        × (length (run_sftp_session machine life none al_session).exit_messages ≡ 1))
unfolding serve_session
handlers_end_example = handlers_end machine_outside machine life none al_session refl

abbrev al_recorder : Recorder
al_recorder = record { options = recorder_options (λ id. true) 80 24 al_session; calls = [] }

abbrev on_terminal : Session
on_terminal = record al_session { pty = some (codes "/dev/pts/3"); recorder = some al_recorder }

relay_recorded_example :
    (t : Recorder) × (((relay 7 stays none on_terminal).recorder ≡ some t)
      × ((map (λ d. d.1) (relay 7 stays none on_terminal).output ≡ written_by stays)
          × ((heard_in t.calls ≡ written_by stays) × (typed_in t.calls ≡ echoed_by stays))))
unfolding serve_session
relay_recorded_example =
    relay_recorded 7 stays none al_recorder on_terminal refl refl refl refl refl refl refl refl refl

-- A read after the client has left is recorded and not sent, and the copying then ends.
left :
    let s =
      happen
        (leaves ∷ writes standard (codes "a") ∷ writes standard (codes "b") ∷ [])
        on_terminal in
    s.output ≡ []
unfolding serve_session happen happens copy is_stopped stop_copy is_gone rec_out write kill_proc
left = refl
