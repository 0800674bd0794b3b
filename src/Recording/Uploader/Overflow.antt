-- ===== src/Recording/Uploader/Overflow.antt =====
-- An upload whose queue overflowed: `failLocked` sets `err`, and `sendLoop` reads only `broken`.
use nokkud.Base.{
  is_empty, Bool-cases, length, Bytes, is_some, refl, ap, inl, inr, true, false, not, none, List,
  [], append_assoc, arith, ◌≡◌, ◌∙◌, ◌||◌, ◌∷◌, ◌++◌, if◌then◌else◌,
}
use nokkud.Recording.Uploader.Sender.{receive-next}
use nokkud.Recording.Uploader.{
  Act, Answers, Uploader, act, acts, begin_close, chunk, end_close, end_loop, fail, handle_chunk,
  max_buffered_chunks, meta, open_stream, receive, receives, send_chunk, write, end_stream,
  send_final, Message, final,
}

-- A stream that takes everything.
abbrev pub takes : Answers
takes = record { opened = none; send = none; answer = none }

abbrev pub drains : List Bytes → List Act
drains [] = []
drains (_ ∷ ps) = receives takes ∷ drains ps

-- The upload with one more chunk in the stream.
abbrev one_taken : Bytes → List Bytes → Uploader → Uploader
one_taken p ps u = record u {
  chunks = ps;
  stream = true;
  sent = (if u.stream then u.sent else u.sent ++ (meta ∷ [])) ++ (chunk p ∷ []);
}

receive-taken :
    (p : Bytes) (ps : List Bytes) (u : Uploader)
    → u.chunks ≡ p ∷ ps
    → u.broken ≡ false
    → receive takes u ≡ one_taken p ps u
unfolding handle_chunk open_stream send_chunk fail
receive-taken p ps u e b =
    rw (receive-next takes p ps u e)
      (elim (Bool-cases u.stream) [ inl s ↦ ground arith | inr s ↦ ground arith ])

abbrev pub chunk_messages : List Bytes → List Message
chunk_messages [] = []
chunk_messages (p ∷ ps) = chunk p ∷ chunk_messages ps

-- What the stream has taken before the first of the chunks: the metadata opens it.
abbrev pub opened_sent : Uploader → List Message
opened_sent u = if u.stream then u.sent else u.sent ++ (meta ∷ [])

record Drained (u v : Uploader) : Type 0 where
  pub chunks : v.chunks ≡ []
  pub stream : v.stream ≡ (u.stream || not (is_empty u.chunks))
  pub broken : v.broken ≡ false
  pub done : v.done ≡ u.done
  pub err : v.err ≡ u.err
  pub shut : v.shut ≡ u.shut
  pub sent :
      v.sent ≡ (if is_empty u.chunks then u.sent else opened_sent u ++ chunk_messages u.chunks)

sent_next :
    (p : Bytes) (ps : List Bytes) (u : Uploader)
    → u.chunks ≡ p ∷ ps
    → (if is_empty ps
        then (one_taken p ps u).sent
        else opened_sent (one_taken p ps u) ++ chunk_messages ps)
      ≡ (if is_empty u.chunks then u.sent else opened_sent u ++ chunk_messages u.chunks)
sent_next p [] u e = rw e refl
sent_next p (q ∷ ps) u e =
    rw e (append_assoc (opened_sent u) (chunk p ∷ []) (chunk_messages (q ∷ ps)))

Drained-next :
    (p : Bytes) (ps : List Bytes) (u : Uploader) {v : Uploader}
    → u.chunks ≡ p ∷ ps
    → Drained (one_taken p ps u) v
    → Drained u v
Drained-next p ps u e rest = record {
  chunks = rest.chunks;
  stream = ground (arith, rest.stream, e);
  broken = rest.broken;
  done = rest.done;
  err = rest.err;
  shut = rest.shut;
  sent = rest.sent ∙ sent_next p ps u e;
}

drains-Drained :
    (ps : List Bytes) (u : Uploader)
    → u.chunks ≡ ps
    → u.broken ≡ false
    → Drained u (acts (drains ps) u)
unfolding acts act
drains-Drained [] u e b = record {
  chunks = e;
  stream = ground (arith, e);
  broken = b;
  done = refl;
  err = refl;
  shut = refl;
  sent = ground (arith, e);
}
drains-Drained (p ∷ ps) u e b =
    rw (acts, act, receive-taken p ps u e b)
      (Drained-next p ps u e (drains-Drained ps (one_taken p ps u) refl b))

-- A write that finds 64 chunks in the queue of a running upload is dropped and the upload has an
-- error from then on. Closing it while the stream takes everything then sends, after what was sent
-- before and the metadata if no stream was open, the chunks of the queue and the final message, and
-- nothing else, and the backend confirms the recording: the error is not looked at by the sender.
pub overflow_confirmed :
    (p : Bytes) (u : Uploader)
    → is_empty p ≡ false
    → u.closed ≡ false
    → u.done ≡ false
    → u.broken ≡ false
    → length u.chunks ≡ max_buffered_chunks
    → let v = end_loop none none (acts (drains u.chunks) (begin_close (write p u))) in
      (v.sent ≡ opened_sent u ++ (chunk_messages u.chunks ++ (final ∷ [])))
      × ((v.confirmed ≡ true) × (is_some (end_close v).1 ≡ true))
unfolding end_close write begin_close fail end_loop end_stream send_final
overflow_confirmed p u full unclosed running healthy many = (
  all_sent,
  (
    ground (arith, v.chunks, v.stream, v.broken, v.done, v.err, v.shut, shut_queue, queued),
    ground (arith, v.chunks, v.stream, v.broken, v.done, v.err, v.shut, shut_queue, queued),
  ),
)
  where
    closing : Uploader
    closing = begin_close (write p u)

    shut_queue : (closing.chunks ≡ u.chunks) × (closing.broken ≡ false)
    shut_queue = (ground arith, ground arith)

    queued : is_empty u.chunks ≡ false
    queued = go u.chunks refl
      where
        go : (ps : List Bytes) → u.chunks ≡ ps → is_empty u.chunks ≡ false
        go [] e = absurd (ground arith)
        go (_ ∷ _) e = rw (e) refl

    v : Drained closing (acts (drains u.chunks) closing)
    v = drains-Drained u.chunks closing shut_queue.0 shut_queue.1

    drained : Uploader
    drained = acts (drains u.chunks) closing

    before_end : drained.sent ≡ opened_sent u ++ chunk_messages u.chunks
    before_end = v.sent ∙ ground (arith, shut_queue, queued)

    with_final : (end_loop none none drained).sent ≡ drained.sent ++ (final ∷ [])
    with_final =
        ground (arith, v.chunks, v.stream, v.broken, v.done, v.err, v.shut, shut_queue, queued)

    all_sent :
        (end_loop none none drained).sent
        ≡ opened_sent u ++ (chunk_messages u.chunks ++ (final ∷ []))
    all_sent =
        with_final
        ∙ (ap (λ l. l ++ (final ∷ [])) before_end
            ∙ append_assoc (opened_sent u) (chunk_messages u.chunks) (final ∷ []))
