-- ===== src/Sshd/Forward/Slots.antt =====
-- The channel slots of one connection, with its goroutines as interleaved steps: one for each open
-- channel and forwarded connection, and an `acceptForwarded` loop for each listener, which gives
-- the listener's slot back when its `Accept` fails.
use nokkud.Base.{Bytes, ℕ, suc, refl, true, Option, none, some, [], arith, ◌+◌, ◌≤◌, ◌≡◌, ◌∙◌}
use nokkud.Sshd.Auth.{Permissions}
use nokkud.Sshd.Account.{Account}
use nokkud.Sshd.Forward.Granted.{tcpip_forward-IsGranted, tcpip_forward_refused}
use nokkud.Sshd.Policy.{Policy}
use nokkud.Sshd.Forward.{
  ConnState, TcpipForwardData, acquire_channel, cancel_tcpip_forward, close, new_conn_state,
  release_channel, tcpip_forward,
}
use nokkud.Sshd.Audit.{ConnMeta, Log}

-- `users` counts the channels and forwarded connections that hold a slot, `loops` the accept loops
-- that run.
pub record Conn : Type 0 where
  pub st : ConnState
  pub log : Log
  pub users : ℕ
  pub loops : ℕ

abbrev pub fresh : ConnMeta → Permissions → Account → ℕ → Conn
fresh conn perms user limit = record {
  st = new_conn_state conn perms user limit;
  log = [];
  users = 0;
  loops = 0;
}

-- `opens` is a channel that the client opens, or a connection that a loop accepts; `forwards` and
-- `refuses` are the two answers to a tcpip-forward request.
pub data Step (c d : Conn) : Type 0 where
  opens :
      (st : ConnState)
      → acquire_channel c.st ≡ (st, true)
      → d ≡ record c { st = st; users = suc c.users }
      → Step c d
  closes :
      (n : ℕ) → c.users ≡ suc n → d ≡ record c { st = release_channel c.st; users = n } → Step c d
  forwards :
      (listen : Bytes → Option (Bytes × ℕ)) (policy : Policy) (f : TcpipForwardData) (p : ℕ)
      → (tcpip_forward listen policy (some f) c.st c.log).2 ≡ some p
      → d ≡ record c {
        st = (tcpip_forward listen policy (some f) c.st c.log).0;
        log = (tcpip_forward listen policy (some f) c.st c.log).1;
        loops = suc c.loops;
      }
      → Step c d
  refuses :
      (listen : Bytes → Option (Bytes × ℕ)) (policy : Policy) (f : Option TcpipForwardData)
      → (tcpip_forward listen policy f c.st c.log).2 ≡ none
      → d ≡ record c {
        st = (tcpip_forward listen policy f c.st c.log).0;
        log = (tcpip_forward listen policy f c.st c.log).1;
      }
      → Step c d
  cancels :
      (policy : Policy) (f : Option TcpipForwardData)
      → d ≡ record c { st = (cancel_tcpip_forward policy f c.st).0 }
      → Step c d
  loop_ends :
      (n : ℕ) → c.loops ≡ suc n → d ≡ record c { st = release_channel c.st; loops = n } → Step c d
  tears_down : d ≡ record c { st = (close c.st).0 } → Step c d

pub data Reach (conn : ConnMeta) (perms : Permissions) (user : Account) (limit : ℕ)
    : Conn → Type 0 where
  start : Reach conn perms user limit (fresh conn perms user limit)
  next : {c d : Conn} → Reach conn perms user limit c → Step c d → Reach conn perms user limit d

-- Every slot that is taken belongs to a channel, a forwarded connection or an accept loop, and
-- there are never more than the limit.
pub record IsCounted (limit : ℕ) (c : Conn) : Type 0 where
  pub counted : c.st.channels ≡ c.users + c.loops
  pub bounded : c.st.channels ≤ limit
  pub limit_is : c.st.limit ≡ limit

cancel-channels :
    (policy : Policy) (f : Option TcpipForwardData) (st : ConnState)
    → ((cancel_tcpip_forward policy f st).0.channels ≡ st.channels)
      × ((cancel_tcpip_forward policy f st).0.limit ≡ st.limit)
unfolding cancel_tcpip_forward
cancel-channels policy none st = (refl, refl)
cancel-channels policy (some f) st = ground arith

Step-IsCounted : {limit : ℕ} {c d : Conn} → Step c d → IsCounted limit c → IsCounted limit d
unfolding acquire_channel release_channel close tcpip_forward
Step-IsCounted (opens st h e) v = ground arith
Step-IsCounted (closes n h e) v = ground arith
Step-IsCounted {limit} {c} (forwards listen policy f p h e) v =
    let (g, r) = tcpip_forward-IsGranted listen policy f c.st c.log p h in
    rw (e, r)
      (record {
        counted = omega (arith, v.counted);
        bounded = omega (arith, g.has_slot, v.limit_is);
        limit_is = v.limit_is;
      })
Step-IsCounted {c} (refuses listen policy none h e) v = ground arith
Step-IsCounted {c} (refuses listen policy (some f) h e) v =
    let (same, _) = tcpip_forward_refused listen policy f c.st c.log h in ground (arith, same)
Step-IsCounted {c} (cancels policy f e) v =
    let (n, l) = cancel-channels policy f c.st in
    rw e (record {
      counted = n ∙ v.counted;
      bounded = omega (arith, n, v.bounded);
      limit_is = l ∙ v.limit_is;
    })
Step-IsCounted (loop_ends n h e) v = ground arith
Step-IsCounted (tears_down e) v = ground arith

Reach-IsCounted_lem :
    {conn : ConnMeta} {perms : Permissions} {user : Account} {limit : ℕ} {c : Conn}
    → Reach conn perms user limit c
    → IsCounted limit c
unfolding new_conn_state
Reach-IsCounted_lem start = record { counted = refl; bounded = omega arith; limit_is = refl }
Reach-IsCounted_lem (next r st) = Step-IsCounted st (Reach-IsCounted_lem r)

-- However its goroutines interleave, the channels, forwarded connections and accept loops of a
-- connection hold one slot each and never more than the limit together.
pub Reach-IsCounted :
    {conn : ConnMeta} {perms : Permissions} {user : Account} {limit : ℕ} {c : Conn}
    → Reach conn perms user limit c
    → (c.st.channels ≡ c.users + c.loops) × (c.users + c.loops ≤ limit)
Reach-IsCounted r =
    let v = Reach-IsCounted_lem r in (v.counted, omega (arith, v.counted, v.bounded))
