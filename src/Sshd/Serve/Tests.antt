-- ===== src/Sshd/Serve/Tests.antt =====
-- A listener that fails twice, and a connection that may not forward.
use nokkud.Base.{
  codes, bytes_beq, lookup, refl, true, false, none, some, List, [], ◌≡◌, ◌∷◌, nat_eq, bytes_eq,
}
use nokkud.Sshd.Auth.{Permissions, cert_ext}
use nokkud.Sshd.Forward.{ConnState, new_conn_state}
use nokkud.Sshd.Policy.{default_policy}
use nokkud.Sshd.Serve.Permitted.{is_proxied, unpermitted_connection}
use nokkud.Sshd.Serve.{
  accept_failed, accepted, forward_request, handler_ends, round, direct_tcpip, GlobalRequest,
  ServeEvent, handle_channel, handle_global_requests, new_serving, next_delay, release_conn,
  serve_event, serve_events, serve_round, take_conn,
}

abbrev rough_start : List ServeEvent
rough_start = round accept_failed ∷ round accept_failed ∷ round accepted ∷ handler_ends ∷ []

sleeps : (serve_events rough_start new_serving).slept ≡ 10 ∷ 30 ∷ []
unfolding serve_events serve_event serve_round next_delay take_conn release_conn new_serving
sleeps = refl

abbrev bare_permissions : Permissions
bare_permissions = record { critical_options = []; extensions = []; account = none }

abbrev bare_conn : ConnState
bare_conn =
    new_conn_state
      (record {
        user = codes "al";
        remote_addr = codes "192.0.2.1:4000";
        local_addr = codes "192.0.2.2:22";
        client_version = codes "SSH-2.0-test";
      })
      bare_permissions
      (record {
        name = codes "al";
        uid = 1001;
        gid = 100;
        home = codes "/home/al";
        shell = codes "/bin/sh";
      })
      50

abbrev asked : GlobalRequest
asked =
    forward_request (λ addr. some (addr, 4001)) default_policy
      (some (record { bind_addr = []; bind_port = 4001 }))

unpermitted_connection_example :
    let (st', log', replies) = handle_global_requests (asked ∷ []) bare_conn [] in
    let (st'', log'', answer) =
      handle_channel default_policy
        (direct_tcpip
          (λ addr. true)
          true
          (some (record { dest_addr = codes "127.0.0.1"; dest_port = 80 })))
        st'
        log' in
    (st'.forwards ≡ some []) × ((log'' ≡ []) × (is_proxied answer ≡ false))
unfolding new_conn_state cert_ext lookup codes bytes_beq
unpermitted_connection_example =
    unpermitted_connection (asked ∷ []) default_policy (λ addr. true) true
      (some (record { dest_addr = codes "127.0.0.1"; dest_port = 80 })) bare_conn [] refl refl
