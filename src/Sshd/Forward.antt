-- ===== src/Sshd/Forward.antt =====
-- internal/sshd/forward.go: the channel slots of a connection and its remote forwards. A channel of
-- empty structs is the number of its elements; what `Listen` answers is an argument.
pub mod Granted
pub mod Slots
pub mod Cancel
mod Tests
use nokkud.Base.{
  is_empty, ltb, contains, Bytes, codes, Dict, lookup, insert, erase, is_some, get_or, ℕ, zero, suc,
  Bool, true, false, not, Option, none, some, List, [], map, ◌+◌, ◌-◌, ◌/◌, ◌%◌, ◌^◌, ◌&&◌, ◌||◌,
  ◌∷◌, ◌++◌, ◌==◌, if◌then◌else◌, nat_eq, bytes_eq,
}
use nokkud.Sshd.Policy.{Policy}
use nokkud.Sshd.Account.{Account}
use nokkud.Sshd.Auth.{Permissions, cert_ext}
use nokkud.Sshd.Audit.{ConnMeta, Log, conn_event, emit, remote_forward}

-- `net.JoinHostPort`.
unfoldable pub join_host_port : Bytes → Bytes → Bytes
join_host_port host port =
    if contains host b':' then b'[' ∷ (host ++ (b']' ∷ b':' ∷ port)) else host ++ (b':' ∷ port)

digits_onto : ℕ → ℕ → Bytes → Bytes
digits_onto zero n acc = acc
digits_onto (suc fuel) n acc =
    let out = (b'0' + n % 10) ∷ acc in
    let rest = digits_onto fuel (n / 10) out in if n / 10 == 0 then out else rest

-- `strconv.FormatUint(n, 10)`; a 64-bit number has at most 20 digits.
unfoldable pub format_uint : ℕ → Bytes
unfolding digits_onto
format_uint n = digits_onto 20 n []

-- `tcpipForwardData`.
pub record TcpipForwardData : Type 0 where
  pub bind_addr : Bytes
  pub bind_port : ℕ

-- A listener: the text and the port of its address, and the address that the client asked for.
pub record Listener : Type 0 where
  pub address : Bytes
  pub port : ℕ
  pub bind_addr : Bytes

-- `connState`; `forwards` is `none` once the connection is torn down.
pub record ConnState : Type 0 where
  pub conn : ConnMeta
  pub permissions : Permissions
  pub user : Account
  pub limit : ℕ
  pub channels : ℕ
  pub forwards : Option (Dict Bytes Listener)

-- `newConnState`.
unfoldable pub new_conn_state : ConnMeta → Permissions → Account → ℕ → ConnState
new_conn_state conn permissions user limit = record {
  conn = conn;
  permissions = permissions;
  user = user;
  limit = limit;
  channels = 0;
  forwards = some [];
}

-- `acquireChannel`.
unfoldable pub acquire_channel : ConnState → ConnState × Bool
acquire_channel st =
    if ltb st.channels st.limit
    then (record st { channels = st.channels + 1 }, true)
    else (st, false)

-- `releaseChannel`.
unfoldable pub release_channel : ConnState → ConnState
release_channel st = record st { channels = st.channels - 1 }

-- `close`: the listeners that it closes, and the state behind it.
unfoldable pub close : ConnState → ConnState × List Listener
close st =
    (record st { forwards = none }, map (λ (e : Bytes × Listener). e.1) (get_or st.forwards []))

-- `forwardingAllowed`.
unfoldable pub forwarding_allowed : Policy → Permissions → Bool
forwarding_allowed policy perms =
    policy.allow_forwarding && cert_ext perms (codes "permit-port-forwarding")

-- The host that a forward listens on.
unfoldable pub forward_host : TcpipForwardData → Bool → Bytes
forward_host f gateway =
    if gateway
    then (if is_empty f.bind_addr then codes "0.0.0.0" else f.bind_addr)
    else codes "127.0.0.1"

-- `forwardAddr`.
unfoldable pub forward_addr : TcpipForwardData → Bool → Bytes
forward_addr f gateway = join_host_port (forward_host f gateway) (format_uint f.bind_port)

-- The state, the log and the reply: refused, or the port.
abbrev pub Reply : Type 0
Reply = ConnState × Log × Option ℕ

-- From the successful `Listen` on.
unfoldable pub add_forward :
    Bool → TcpipForwardData → Listener → Dict Bytes Listener → ConnState → Log → Reply
add_forward gateway f ln forwards st log =
    let bound = record f { bind_port = ln.port } in
    (
      record st { forwards = some (insert (forward_addr bound gateway) ln forwards) },
      emit log (record (conn_event st.conn remote_forward) { target = ln.address }),
      some ln.port,
    )

-- The part of `tcpipForward` under the lock, on the forwards of a connection that is not torn down.
locked_forward :
    (Bytes → Option (Bytes × ℕ))
    → Bool
    → TcpipForwardData
    → Dict Bytes Listener
    → ConnState
    → Log
    → Reply
locked_forward listen gateway f forwards st log =
    let addr = forward_addr f gateway in
    if is_some (lookup addr forwards)
    then (st, log, none)
    else let (st', free) = acquire_channel st in
      if not free then (st, log, none) else elim (listen addr) [
        | none ↦ (release_channel st', log, none)
        | some (address, port) ↦
            add_forward gateway f
              (record { address = address; port = port % 2 ^ 16; bind_addr = f.bind_addr }) forwards
              st' log
      ]

-- `tcpipForward`; the payload is `none` if it does not unmarshal.
unfoldable pub tcpip_forward :
    (Bytes → Option (Bytes × ℕ)) → Policy → Option TcpipForwardData → ConnState → Log → Reply
unfolding locked_forward
tcpip_forward listen policy none st log = (st, log, none)
tcpip_forward listen policy (some f) st log =
    if not (forwarding_allowed policy st.permissions) || ltb 65535 f.bind_port
    then (st, log, none)
    else if not (f.bind_port == 0) && (ltb f.bind_port 1024 && not (st.user.uid == 0))
    then (st, log, none)
    else elim st.forwards [
      | none ↦ (st, log, none)
      | some forwards ↦ locked_forward listen policy.gateway_ports f forwards st log
    ]

-- `cancelTCPIPForward`: the state, the listener that it closes, and the reply.
unfoldable pub cancel_tcpip_forward :
    Policy → Option TcpipForwardData → ConnState → ConnState × Option Listener × Bool
cancel_tcpip_forward policy none st = (st, none, false)
cancel_tcpip_forward policy (some f) st =
    let addr = forward_addr f policy.gateway_ports in
    let forwards = get_or st.forwards [] in
    elim (lookup addr forwards) [
      | none ↦ (st, none, false)
      | some ln ↦ (record st { forwards = some (erase addr forwards) }, some ln, true)
    ]
