-- ===== src/Sshd/Serve.antt =====
-- internal/sshd/server.go and forward.go: the accept loop with its connection slots, and the
-- channels and global requests of a connection. What the network answers is an argument.
pub mod Bounded
pub mod Permitted
mod Tests
use nokkud.Base.{
  ltb, Bytes, codes, is_some, ℕ, min, Bool, true, false, not, Option, none, some, List, [], ◌+◌,
  ◌-◌, ◌*◌, ◌∷◌, ◌++◌, ◌==◌, if◌then◌else◌, nat_eq, bytes_eq,
}
use nokkud.Sshd.Policy.{Policy}
use nokkud.Sshd.Audit.{forward, Log, conn_event, emit}
use nokkud.Sshd.Forward.{
  ConnState, TcpipForwardData, acquire_channel, cancel_tcpip_forward, format_uint,
  forwarding_allowed, join_host_port, tcpip_forward,
}

abbrev pub max_conns : ℕ
max_conns = 100

-- In milliseconds.
abbrev pub accept_backoff : ℕ
accept_backoff = 10

-- What `Accept` gives.
pub data Accepted : Type 0 where
  listener_closed accept_failed accepted : Accepted

-- The server while it serves: the elements of `conns`, the delay of the loop, the handlers that run,
-- the connections that it dropped, its sleeps, and whether the loop has returned.
pub record Serving : Type 0 where
  pub conns : ℕ
  pub delay : ℕ
  pub handling : ℕ
  pub dropped : ℕ
  pub slept : List ℕ
  pub returned : Bool

unfoldable pub new_serving : Serving
new_serving = record {
  conns = 0;
  delay = 0;
  handling = 0;
  dropped = 0;
  slept = [];
  returned = false;
}

-- The send to `conns` and the start of the handler, of `Serve` and of `ServeConn`.
unfoldable pub take_conn : Serving → Serving
take_conn s =
    if ltb s.conns max_conns
    then record s { conns = s.conns + 1; handling = s.handling + 1 }
    else record s { dropped = s.dropped + 1 }

-- The next delay of the loop, in milliseconds.
unfoldable pub next_delay : ℕ → ℕ
next_delay delay = min (2 * delay + accept_backoff) 1000

-- One round of the loop of `Serve`.
unfoldable pub serve_round : Accepted → Serving → Serving
serve_round listener_closed s = record s { returned = true }
serve_round accept_failed s = record s {
  delay = next_delay s.delay;
  slept = s.slept ++ (next_delay s.delay ∷ []);
}
serve_round accepted s = take_conn (record s { delay = 0 })

-- The receive from `conns` when a handler ends.
unfoldable pub release_conn : Serving → Serving
release_conn s = record s { conns = s.conns - 1; handling = s.handling - 1 }

-- What happens to the server: a round of the loop, a relayed connection, or the end of a handler.
pub data ServeEvent : Type 0 where
  round : Accepted → ServeEvent
  relayed : ServeEvent
  handler_ends : ServeEvent

unfoldable pub serve_event : ServeEvent → Serving → Serving
serve_event (round a) s = if s.returned then s else serve_round a s
serve_event relayed s = take_conn s
serve_event handler_ends s = if s.handling == 0 then s else release_conn s

unfoldable pub serve_events : List ServeEvent → Serving → Serving
serve_events [] s = s
serve_events (e ∷ es) s = serve_events es (serve_event e s)

-- `tcpipChannelData`, as far as it is read.
pub record TcpipChannelData : Type 0 where
  pub dest_addr : Bytes
  pub dest_port : ℕ

-- The answers to a channel: `ssh.RejectionReason`, a failed `Accept`, or a proxied connection.
pub data ChannelReply : Type 0 where
  prohibited connection_failed unknown_channel_type resource_shortage : ChannelReply
  not_accepted : ChannelReply
  session_served : ChannelReply
  proxied : Bytes → ChannelReply

-- `serveDirectTCPIP`; the payload is `none` if it does not unmarshal, the flags say that the dial of
-- the address and the `Accept` succeed.
unfoldable pub serve_direct_tcpip :
    Policy → (Bytes → Bool) → Bool → Option TcpipChannelData → ConnState → Log → Log × ChannelReply
serve_direct_tcpip policy dial accepts none st log = (log, connection_failed)
serve_direct_tcpip policy dial accepts (some d) st log =
    let dest = join_host_port d.dest_addr (format_uint d.dest_port) in
    if not (forwarding_allowed policy st.permissions)
    then (log, prohibited)
    else if not (dial dest)
    then (log, connection_failed)
    else (
      emit log (record (conn_event st.conn forward) { target = dest }),
      if accepts then proxied dest else not_accepted,
    )

-- `ChannelType` of a new channel, with what its server meets.
pub data NewChannel : Type 0 where
  session : NewChannel
  direct_tcpip : (Bytes → Bool) → Bool → Option TcpipChannelData → NewChannel
  other_channel : NewChannel

-- The loop over the channels of `handleConn`: the reply, and whether a slot is held while it is
-- served.
unfoldable pub handle_channel :
    Policy → NewChannel → ConnState → Log → ConnState × Log × ChannelReply
handle_channel policy other_channel st log = (st, log, unknown_channel_type)
handle_channel policy session st log =
    let (st', free) = acquire_channel st in
    if free then (st', log, session_served) else (st, log, resource_shortage)
handle_channel policy (direct_tcpip dial accepts d) st log =
    let (st', free) = acquire_channel st in
    let (log', answer) = serve_direct_tcpip policy dial accepts d st' log in
    if free then (st', log', answer) else (st, log, resource_shortage)

-- A global request; a payload is `none` if it does not unmarshal.
pub data GlobalRequest : Type 0 where
  forward_request : (Bytes → Option (Bytes × ℕ)) → Policy → Option TcpipForwardData → GlobalRequest
  cancel_request : Policy → Option TcpipForwardData → GlobalRequest
  keepalive : GlobalRequest
  other_request : GlobalRequest

-- One round of `handleGlobalRequests`, with whether it replies with success.
unfoldable pub global_request : GlobalRequest → ConnState → Log → ConnState × Log × Bool
global_request (forward_request listen policy f) st log =
    let (st', log', port) = tcpip_forward listen policy f st log in (st', log', is_some port)
global_request (cancel_request policy f) st log =
    let (st', closed, ok) = cancel_tcpip_forward policy f st in (st', log, ok)
global_request keepalive st log = (st, log, true)
global_request other_request st log = (st, log, false)

-- `handleGlobalRequests`, with its replies.
unfoldable pub handle_global_requests :
    List GlobalRequest → ConnState → Log → ConnState × Log × List Bool
handle_global_requests [] st log = (st, log, [])
handle_global_requests (r ∷ rs) st log =
    let (st', log', ok) = global_request r st log in
    let (st'', log'', oks) = handle_global_requests rs st' log' in (st'', log'', ok ∷ oks)

-- `banner`.
unfoldable pub banner : Policy → Bytes
banner policy =
    if not policy.record_sessions then [] else codes "This session is recorded and audited.\r\n"
