-- ===== src/Sshd/Forward/Granted.antt =====
-- Which remote forwards are granted.
use nokkud.Base.{
  Option-cases, Bytes, codes, Dict, lookup, insert, is_some, ℕ, refl, inl, inr, true, Option, none,
  some, arith, ◌+◌, ◌%◌, ◌^◌, ◌≤◌, ◌<◌, ◌≡◌, ◌⊎◌, nat_eq, bytes_eq,
}
use nokkud.Sshd.Auth.{cert_ext}
use nokkud.Sshd.Audit.{Log, conn_event, emit, remote_forward}
use nokkud.Sshd.Policy.{Policy}
use nokkud.Sshd.Forward.{
  ConnState, Listener, TcpipForwardData, forward_addr, Reply, acquire_channel, add_forward,
  forwarding_allowed, release_channel, tcpip_forward,
}

module _ (listen : Bytes → Option (Bytes × ℕ)) (policy : Policy) (f : TcpipForwardData)
    (st : ConnState) where
  -- A forward that is granted the port `p`.
  pub record IsGranted (p : ℕ) : Type 0 where
    pub forwards : Dict Bytes Listener
    pub address : Bytes
    pub port : ℕ
    pub is_open : st.forwards ≡ some forwards
    pub is_allowed : policy.allow_forwarding ≡ true
    pub is_permitted :
        is_some (lookup (codes "permit-port-forwarding") st.permissions.extensions) ≡ true
    pub is_port : f.bind_port ≤ 65535
    pub is_privileged : (f.bind_port ≡ 0) ⊎ ((1024 ≤ f.bind_port) ⊎ (st.user.uid ≡ 0))
    pub has_slot : st.channels < st.limit
    pub is_new : lookup (forward_addr f policy.gateway_ports) forwards ≡ none
    pub is_bound : listen (forward_addr f policy.gateway_ports) ≡ some (address, port)
    pub port_is : p ≡ port % 2 ^ 16

module _ (listen : Bytes → Option (Bytes × ℕ)) (policy : Policy) (f : TcpipForwardData)
    (st : ConnState) (log : Log) where
  abbrev result : Reply
  result = tcpip_forward listen policy (some f) st log

  -- What a granted forward changes: one more slot, the listener under the address with the port it
  -- got, and one event.
  abbrev pub granted : Bytes → ℕ → Dict Bytes Listener → Reply
  granted address p forwards = (
    record st {
      channels = st.channels + 1;
      forwards = some (
          insert (forward_addr (record f { bind_port = p }) policy.gateway_ports)
            (record { address = address; port = p; bind_addr = f.bind_addr }) forwards);
    },
    emit log (record (conn_event st.conn remote_forward) { target = address }),
    some p,
  )

  -- A remote forward is granted only if the policy and the certificate allow forwarding, to a port
  -- of 16 bits that root alone may take below 1024, on an address that is not forwarded yet, while
  -- the connection is up and has a free slot; it then takes that slot, is kept under the port it
  -- got and is logged once.
  pub tcpip_forward-IsGranted :
      (p : ℕ)
      → result.2 ≡ some p
      → (g : IsGranted listen policy f st p) × (result ≡ granted g.address p g.forwards)
  unfolding tcpip_forward forwarding_allowed cert_ext acquire_channel add_forward
  tcpip_forward-IsGranted p h = go st.forwards refl
    where
      go :
          (o : Option (Dict Bytes Listener))
          → st.forwards ≡ o
          → (g : IsGranted listen policy f st p) × (result ≡ granted g.address p g.forwards)
      go none e = ground arith
      go (some forwards) e = elim (Option-cases (listen (forward_addr f policy.gateway_ports))) [
        | inl l ↦ ground arith
        | inr ((address, port), l) ↦ (
          record {
            forwards = forwards;
            address = address;
            port = port;
            is_open = e;
            is_allowed = ground arith;
            is_permitted = ground arith;
            is_port = ground arith;
            is_privileged = ground arith;
            has_slot = ground arith;
            is_new = ground arith;
            is_bound = l;
            port_is = ground arith;
          },
          ground arith,
        )
      ]

  -- A refused forward changes nothing: no slot stays taken, nothing is kept or logged.
  pub tcpip_forward_refused : result.2 ≡ none → (result.0 ≡ st) × (result.1 ≡ log)
  unfolding tcpip_forward acquire_channel release_channel add_forward
  tcpip_forward_refused h = ground arith
