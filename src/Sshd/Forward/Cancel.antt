-- ===== src/Sshd/Forward/Cancel.antt =====
-- Cancelling a remote forward.
use nokkud.Base.{
  Bytes, bytes_beq_iff, lookup, insert, lookup-insert, lookup-erase, lookup-insert_self, get_or, ℕ,
  refl, true, Option, none, some, [], arith, ◌≡◌, ◌==◌, if◌then◌else◌, nat_eq, bytes_eq,
}
use nokkud.Sshd.Policy.{Policy}
use nokkud.Sshd.Forward.Granted.{tcpip_forward-IsGranted}
use nokkud.Sshd.Audit.{Log}
use nokkud.Sshd.Forward.{
  ConnState, Listener, TcpipForwardData, cancel_tcpip_forward, forward_addr, tcpip_forward,
}

module _ (listen : Bytes → Option (Bytes × ℕ)) (policy : Policy) (f : TcpipForwardData)
    (st : ConnState) (log : Log) where
  -- A client that cancels a granted forward by the port of the reply, under the policy that
  -- granted it, closes that listener: its address is free again, and every other forward stays as
  -- it was.
  pub cancel-forward :
      (p : ℕ)
      → (tcpip_forward listen policy (some f) st log).2 ≡ some p
      → let st' = (tcpip_forward listen policy (some f) st log).0 in
        let bound = record f { bind_port = p } in
        let (after, shut, done) = cancel_tcpip_forward policy (some bound) st' in
        (done ≡ true)
        × ((ln : Listener) × (shut ≡ some ln) × (ln.port ≡ p))
        × ((addr : Bytes)
            → lookup addr (get_or after.forwards []) ≡ (
                if forward_addr bound policy.gateway_ports == addr
                then none
                else lookup addr (get_or st.forwards [])))
  unfolding cancel_tcpip_forward
  cancel-forward p h =
      let (g, r) = tcpip_forward-IsGranted listen policy f st log p h in
      let ln : Listener = record { address = g.address; port = p; bind_addr = f.bind_addr } in
      let key = forward_addr (record f { bind_port = p }) policy.gateway_ports in
      let added = insert key ln g.forwards in
      rw (r, g.is_open)
        (rw (lookup-insert_self key ln g.forwards, cancel_tcpip_forward)
          (
            refl,
            (ln, refl, refl),
            λ addr. ground (
              arith,
              lookup-erase key addr added,
              lookup-insert key addr ln g.forwards,
              bytes_beq_iff key addr,
            ),
          ))
