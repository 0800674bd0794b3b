-- ===== src/Client/Relay.antt =====
-- internal/client/relay.go: a relayed connection over a stream of frames. What the stream receives,
-- and whether it takes a frame, are arguments.
pub mod Whole
pub mod Last
use nokkud.Base.{
  is_empty, leb, length, take, drop, Bytes, ℕ, inl, inr, Bool, true, false, not, Option, none, some,
  List, [], ◌⊎◌, ◌&&◌, ◌∷◌, ◌++◌, if◌then◌else◌,
}

-- `DaemonRelayResponse`; `unset` is a message of neither kind.
pub data Response : Type 0 where
  data_frame : Bytes → Response
  closed_frame unset : Response

-- `DaemonRelayRequest`, as far as a connection sends it.
pub data Request : Type 0 where
  send_data : Bytes → Request
  send_closed : Request

-- `relayConn`; `sent` holds the frames that the stream took, the oldest first, `canceled` that the
-- stream was ended, and `deadline` the time at which the timer ends it.
pub record RelayConn : Type 0 where
  pub pending : Bytes
  pub closed : Bool
  pub deadline : Option ℕ
  pub canceled : Bool
  pub sent : List Request

-- `&relayConn{...}`.
abbrev pub relay_conn : RelayConn
relay_conn = record { pending = []; closed = false; deadline = none; canceled = false; sent = [] }

pub data ReadResult : Type 0 where
  got : Bytes → ReadResult
  eof failed : ReadResult

-- The end of `Read` into a buffer of `n` bytes.
unfoldable pub copy_pending : ℕ → RelayConn → ReadResult × RelayConn
copy_pending n c = (got (take n c.pending), record c { pending = drop n c.pending })

-- The loop of `Read` on what the stream receives, which fails at the end of the list.
unfoldable pub receive : ℕ → RelayConn → List Response → ReadResult × (RelayConn × List Response)
unfolding copy_pending
receive n c [] = (failed, (c, []))
receive n c (data_frame d ∷ ms) =
    let next = record c { pending = d } in
    let more = receive n next ms in
    if is_empty d then more else (let (res, last) = copy_pending n next in (res, (last, ms)))
receive n c (closed_frame ∷ ms) = (eof, (c, ms))
receive n c (unset ∷ ms) = receive n c ms

-- `Read`.
unfoldable pub read : ℕ → RelayConn → List Response → ReadResult × (RelayConn × List Response)
unfolding receive copy_pending
read n c ms =
    if is_empty c.pending
    then receive n c ms
    else (let (res, last) = copy_pending n c in (res, (last, ms)))

pub data WriteError : Type 0 where
  net_closed send_failed : WriteError

-- `Write`; the flag says whether the stream takes the frame.
unfoldable pub write : Bool → Bytes → RelayConn → RelayConn × (ℕ ⊎ WriteError)
write takes p c =
    if c.closed
    then (c, inr net_closed)
    else if takes
    then (record c { sent = c.sent ++ (send_data p ∷ []) }, inl (length p))
    else (c, inr send_failed)

-- `SetDeadline`; `none` is the zero time.
unfoldable pub set_deadline : Option ℕ → RelayConn → RelayConn
set_deadline t c = record c { deadline = t }

-- The timer of `SetDeadline` at the time `now`.
unfoldable pub expire : ℕ → RelayConn → RelayConn
expire now c = elim c.deadline [
  | none ↦ c
  | some t ↦ if leb t now then record c { deadline = none; canceled = true } else c
]

-- `Close`; `locks` is what `TryLock` answers, `takes` whether the stream takes the frame.
unfoldable pub close : Bool → Bool → RelayConn → RelayConn
unfolding set_deadline
close locks takes c =
    let said =
      if locks && not c.closed
      then record c { closed = true; sent = if takes then c.sent ++ (send_closed ∷ []) else c.sent }
      else c in
    set_deadline none (record said { canceled = true })
