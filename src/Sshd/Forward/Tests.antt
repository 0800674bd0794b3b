-- ===== src/Sshd/Forward/Tests.antt =====
-- The theorems on remote forwards at a forward to a port that the system chooses.
use nokkud.Base.{
  Bytes, codes, bytes_beq, lookup, get_or, ℕ, refl, true, Option, none, some, [], ◌+◌, ◌≤◌, ◌≡◌,
  ◌∷◌, ◌==◌, if◌then◌else◌, nat_eq, bytes_eq,
}
use nokkud.Sshd.Forward.Cancel.{cancel-forward}
use nokkud.Sshd.Auth.{Permissions, cert_ext}
use nokkud.Sshd.Account.{Account}
use nokkud.Sshd.Audit.{ConnMeta}
use nokkud.Sshd.Policy.{default_policy}
use nokkud.Sshd.Forward.{
  TcpipForwardData, ConnState, Listener, new_conn_state, cancel_tcpip_forward, tcpip_forward,
  acquire_channel, add_forward, forward_addr, forwarding_allowed,
}
use nokkud.Sshd.Forward.Granted.{IsGranted, granted, tcpip_forward-IsGranted}
use nokkud.Sshd.Forward.Slots.{Conn, Reach, Reach-IsCounted, start, next, opens, forwards}

abbrev conn : ConnMeta
conn = record {
  user = codes "ann";
  remote_addr = codes "192.0.2.1:4000";
  local_addr = codes "192.0.2.2:22";
  client_version = codes "SSH-2.0-test";
}

abbrev perms : Permissions
perms = record {
  critical_options = [];
  extensions = (codes "permit-port-forwarding", []) ∷ [];
  account = none;
}

abbrev ann : Account
ann = record {
  name = codes "ann";
  uid = 1000;
  gid = 1000;
  home = codes "/home/ann";
  shell = codes "/bin/sh";
}

abbrev st : ConnState
st = new_conn_state conn perms ann 2

abbrev listen : Bytes → Option (Bytes × ℕ)
listen addr = some (codes "127.0.0.1:40001", 40001)

abbrev request : TcpipForwardData
request = record { bind_addr = codes "localhost"; bind_port = 0 }

granted_port : (tcpip_forward listen default_policy (some request) st []).2 ≡ some 40001
unfolding tcpip_forward new_conn_state forwarding_allowed cert_ext acquire_channel add_forward
    lookup codes bytes_beq
granted_port = refl

tcpip_forward-IsGranted_example :
    (g : IsGranted listen default_policy request st 40001) × (tcpip_forward listen default_policy
        (some request)
        st
        []
      ≡ granted listen default_policy request st [] g.address 40001 g.forwards)
tcpip_forward-IsGranted_example =
    tcpip_forward-IsGranted listen default_policy request st [] 40001 granted_port

abbrev privileged : TcpipForwardData
privileged = record { bind_addr = codes "localhost"; bind_port = 80 }

abbrev kept : ConnState
kept = (tcpip_forward listen default_policy (some request) st []).0

cancel-forward_example :
    let bound = record request { bind_port = 40001 } in
    let (after, shut, done) = cancel_tcpip_forward default_policy (some bound) kept in
    (done ≡ true)
    × ((ln : Listener) × (shut ≡ some ln) × (ln.port ≡ 40001))
    × ((addr : Bytes)
        → lookup addr (get_or after.forwards []) ≡ (
            if forward_addr bound default_policy.gateway_ports == addr
            then none
            else lookup addr (get_or st.forwards [])))
cancel-forward_example = cancel-forward listen default_policy request st [] 40001 granted_port

abbrev busy : Conn
busy = record {
  st = (acquire_channel kept).0;
  log = (tcpip_forward listen default_policy (some request) st []).1;
  users = 1;
  loops = 1;
}

busy-Reach : Reach conn perms ann 2 busy
unfolding tcpip_forward new_conn_state forwarding_allowed cert_ext acquire_channel add_forward
    lookup codes bytes_beq
busy-Reach =
    next (next start (forwards listen default_policy request 40001 refl refl)) (opens _ refl refl)

Reach-IsCounted_example : (busy.st.channels ≡ 1 + 1) × (1 + 1 ≤ 2)
Reach-IsCounted_example = Reach-IsCounted busy-Reach
