-- ===== src/Sshd/Serve/Permitted.antt =====
-- A connection whose certificate does not permit port forwarding.
use nokkud.Base.{
  ltb, Bool-cases, Bytes, codes, lookup, ℕ, refl, ap, inl, inr, Bool, true, false, Option, none,
  some, List, [], arith, ◌+◌, ◌≡◌, ◌∷◌, nat_eq, bytes_eq,
}
use nokkud.Sshd.Audit.{Log}
use nokkud.Sshd.Policy.{Policy}
use nokkud.Sshd.Forward.{
  ConnState, TcpipForwardData, cancel_tcpip_forward, forwarding_allowed, tcpip_forward,
  acquire_channel,
}
use nokkud.Sshd.Serve.{
  GlobalRequest, cancel_request, forward_request, global_request, keepalive, other_request,
  ChannelReply, TcpipChannelData, direct_tcpip, handle_channel, handle_global_requests, proxied,
  serve_direct_tcpip,
}
use nokkud.Sshd.Auth.{Permissions, cert_ext}

not_allowed :
    (policy : Policy) (perms : Permissions)
    → cert_ext perms (codes "permit-port-forwarding") ≡ false
    → forwarding_allowed policy perms ≡ false
unfolding forwarding_allowed
not_allowed policy perms h = ground (arith, h)

tcpip_forward-not_allowed :
    (listen : Bytes → Option (Bytes × ℕ)) (policy : Policy) (f : Option TcpipForwardData)
    (st : ConnState) (log : Log)
    → forwarding_allowed policy st.permissions ≡ false
    → tcpip_forward listen policy f st log ≡ (st, log, none)
unfolding tcpip_forward
tcpip_forward-not_allowed listen policy none st log h = refl
tcpip_forward-not_allowed listen policy (some f) st log h = ground (arith, h)

cancel-nothing :
    (policy : Policy) (f : Option TcpipForwardData) (st : ConnState)
    → st.forwards ≡ some []
    → (cancel_tcpip_forward policy f st).0 ≡ st
unfolding cancel_tcpip_forward lookup
cancel-nothing policy none st h = refl
cancel-nothing policy (some f) st h = ground (arith, h)

global_request-Untouched :
    (r : GlobalRequest) (st : ConnState) (log : Log)
    → cert_ext st.permissions (codes "permit-port-forwarding") ≡ false
    → st.forwards ≡ some []
    → ((global_request r st log).0 ≡ st) × ((global_request r st log).1 ≡ log)
unfolding global_request
global_request-Untouched (forward_request listen policy f) st log h e =
    let same =
      tcpip_forward-not_allowed listen policy f st log (not_allowed policy st.permissions h) in
    (ap (λ r. r.0) same, ap (λ r. r.1) same)
global_request-Untouched (cancel_request policy f) st log h e = (cancel-nothing policy f st e, refl)
global_request-Untouched keepalive st log h e = (refl, refl)
global_request-Untouched other_request st log h e = (refl, refl)

handle_global_requests-Untouched :
    (rs : List GlobalRequest) (st : ConnState) (log : Log)
    → cert_ext st.permissions (codes "permit-port-forwarding") ≡ false
    → st.forwards ≡ some []
    → ((handle_global_requests rs st log).0 ≡ st) × ((handle_global_requests rs st log).1 ≡ log)
unfolding handle_global_requests
handle_global_requests-Untouched [] st log h e = (refl, refl)
handle_global_requests-Untouched (r ∷ rs) st log h e =
    let (same, quiet) = global_request-Untouched r st log h e in
    rw (same, quiet) (handle_global_requests-Untouched rs st log h e)

abbrev pub is_proxied : ChannelReply → Bool
is_proxied (proxied _) = true
is_proxied _ = false

serve_direct_tcpip-refused :
    (policy : Policy) (dial : Bytes → Bool) (accepts : Bool) (d : Option TcpipChannelData)
    (st : ConnState) (log : Log)
    → forwarding_allowed policy st.permissions ≡ false
    → ((serve_direct_tcpip policy dial accepts d st log).0 ≡ log)
      × (is_proxied (serve_direct_tcpip policy dial accepts d st log).1 ≡ false)
unfolding serve_direct_tcpip
serve_direct_tcpip-refused policy dial accepts none st log h = (refl, refl)
serve_direct_tcpip-refused policy dial accepts (some d) st log h = (ground arith, ground arith)

handle_channel-refused :
    (policy : Policy) (dial : Bytes → Bool) (accepts : Bool) (d : Option TcpipChannelData)
    (st : ConnState) (log : Log)
    → forwarding_allowed policy st.permissions ≡ false
    → ((handle_channel policy (direct_tcpip dial accepts d) st log).1 ≡ log)
      × (is_proxied (handle_channel policy (direct_tcpip dial accepts d) st log).2 ≡ false)
unfolding handle_channel acquire_channel
handle_channel-refused policy dial accepts d st log h =
    let taken = record st { channels = st.channels + 1 } in
    let (quiet, refused) = serve_direct_tcpip-refused policy dial accepts d taken log h in
    elim (Bool-cases (ltb st.channels st.limit)) [
      | inl e ↦ (ground (arith, quiet), ground (arith, refused))
      | inr e ↦ (ground arith, ground arith)
    ]

-- A connection whose certificate does not permit port forwarding gets none, whatever the policies
-- and the network are and whatever it asks for: its global requests leave it without a forward and
-- the log as it was, and a direct-tcpip channel that it opens then is not proxied and not logged.
-- The condition: there are no forwards before, as on a new connection.
pub unpermitted_connection :
    (rs : List GlobalRequest) (policy : Policy) (dial : Bytes → Bool) (accepts : Bool)
    (d : Option TcpipChannelData) (st : ConnState) (log : Log)
    → cert_ext st.permissions (codes "permit-port-forwarding") ≡ false
    → st.forwards ≡ some []
    → let (st', log', replies) = handle_global_requests rs st log in
      let (st'', log'', answer) = handle_channel policy (direct_tcpip dial accepts d) st' log' in
      (st'.forwards ≡ some []) × ((log'' ≡ log) × (is_proxied answer ≡ false))
unpermitted_connection rs policy dial accepts d st log h e =
    let (same, quiet) = handle_global_requests-Untouched rs st log h e in
    rw (same, quiet)
      (e, handle_channel-refused policy dial accepts d st log (not_allowed policy st.permissions h))
