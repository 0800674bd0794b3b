-- ===== src/Recording/Uploader.antt =====
-- internal/recording/uploader.go: a live upload. The writer, the closer and the sender are goroutines,
-- so an upload is a sequence of their actions. What the backend's stream answers is an argument.
pub mod Healthy
pub mod Sender
pub mod Complete
pub mod Ends
pub mod Overflow
mod Tests
use nokkud.Base.{
  is_empty, ltb, length, Bytes, codes, is_some, get_or, ℕ, Bool, true, false, not, Option, none,
  some, List, [], ◌&&◌, ◌||◌, ◌∷◌, ◌++◌, if◌then◌else◌,
}

-- `maxBufferedChunks`.
abbrev pub max_buffered_chunks : ℕ
max_buffered_chunks = 64

-- `UploadRecordingRequest`.
pub data Message : Type 0 where
  meta : Message
  chunk : Bytes → Message
  final : Message

-- `Uploader` with the variables of `sendLoop`. `chunks` holds what is in the channel and `shut`
-- says that the channel is closed; `sent` are the messages that the stream took, the oldest first,
-- and `confirmed` says that the backend answered the end of the stream without an error.
pub record Uploader : Type 0 where
  pub chunks : List Bytes
  pub shut : Bool
  pub err : Option Bytes
  pub closed : Bool
  pub stream : Bool
  pub broken : Bool
  pub done : Bool
  pub canceled : Bool
  pub sent : List Message
  pub confirmed : Bool

-- `NewUploader`.
unfoldable pub new_uploader : Uploader
new_uploader = record {
  chunks = [];
  shut = false;
  err = none;
  closed = false;
  stream = false;
  broken = false;
  done = false;
  canceled = false;
  sent = [];
  confirmed = false;
}

-- `failLocked`, and `fail`: the first reason stays.
unfoldable pub fail : Bytes → Bytes → Uploader → Uploader
fail place err u = elim u.err [
  | none ↦ record u { err = some (place ++ (codes ": " ++ err)) }
  | some _ ↦ u
]

-- `Write`; it always reports success.
unfoldable pub write : Bytes → Uploader → Uploader
unfolding fail
write p u =
    if is_empty p || (u.closed || is_some u.err)
    then u
    else if ltb (length u.chunks) max_buffered_chunks
    then record u { chunks = u.chunks ++ (p ∷ []) }
    else fail (codes "upload queue full") (codes "queue full") u

-- `finish` up to its wait.
unfoldable pub begin_close : Uploader → Uploader
begin_close u = record u { closed = true; shut = true }

-- `finish` after its wait, and what it returns. It waits for the sender, or for the timeout.
unfoldable pub end_close : Uploader → Uploader × Option Bytes
end_close u = (
  record u { canceled = true },
  elim u.err [
    | some err ↦ some err
    | none ↦ if u.done then none else some (codes "upload timed out")
  ],
)

-- What the stream answers to one chunk: to its opening with the metadata, to the chunk, and to its
-- end if the chunk was refused. `none` is no error.
pub record Answers : Type 0 where
  pub opened : Option Bytes
  pub send : Option Bytes
  pub answer : Option Bytes

-- `open`, where there is no stream yet.
unfoldable pub open_stream : Option Bytes → Uploader → Uploader
unfolding fail
open_stream none u = record u { stream = true; sent = u.sent ++ (meta ∷ []) }
open_stream (some err) u = record (fail (codes "open upload stream") err u) { broken = true }

-- The `Send` of a chunk.
unfoldable pub send_chunk : Answers → Bytes → Uploader → Uploader
unfolding fail
send_chunk a p u = elim a.send [
  | none ↦ record u { sent = u.sent ++ (chunk p ∷ []) }
  | some err ↦ record (fail (codes "send recording chunk") (get_or a.answer err) u) {
    broken = true;
  }
]

-- One round of the loop of `sendLoop`, with the chunk that it received.
unfoldable pub handle_chunk : Answers → Bytes → Uploader → Uploader
unfolding open_stream send_chunk
handle_chunk a p u =
    if u.broken
    then u
    else let o = if u.stream then u else open_stream a.opened u in
      if o.broken then o else send_chunk a p o

-- The sender receives; it waits while the channel is empty and open.
unfoldable pub receive : Answers → Uploader → Uploader
unfolding handle_chunk
receive a u = elim u.chunks [ [] ↦ u | (p ∷ ps) ↦ handle_chunk a p (record u { chunks = ps }) ]

-- The final message; an error of its `Send` is dropped.
unfoldable pub send_final : Option Bytes → Uploader → Uploader
send_final none u = record u { sent = u.sent ++ (final ∷ []) }
send_final (some _) u = u

-- `sendLoop` behind its loop, with the answers to the final message and to the end of the stream.
unfoldable pub end_stream : Option Bytes → Option Bytes → Uploader → Uploader
unfolding fail send_final
end_stream send answer u =
    if not u.stream || u.broken then record u { done = true } else elim answer [
      | none ↦ record (send_final send u) { done = true; confirmed = true }
      | some err ↦ record (fail (codes "finish upload") err (send_final send u)) { done = true }
    ]

-- The sender at the end of its loop: the channel is closed and empty.
unfoldable pub end_loop : Option Bytes → Option Bytes → Uploader → Uploader
unfolding end_stream
end_loop send answer u =
    if (u.shut && is_empty u.chunks) && not u.done then end_stream send answer u else u

-- The actions of the goroutines.
pub data Act : Type 0 where
  writes : Bytes → Act
  closes : Act
  receives : Answers → Act
  ends : Option Bytes → Option Bytes → Act

unfoldable pub act : Act → Uploader → Uploader
unfolding write begin_close receive end_loop
act (writes p) u = write p u
act closes u = begin_close u
act (receives a) u = receive a u
act (ends send answer) u = end_loop send answer u

unfoldable pub acts : List Act → Uploader → Uploader
unfolding act
acts [] u = u
acts (a ∷ l) u = acts l (act a u)
