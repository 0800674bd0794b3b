-- ===== src/Recording/Uploader/Tests.antt =====
-- An upload of two chunks, one whose stream ends in between, and one whose queue overflows.
use nokkud.Base.{
  is_empty, Bytes, codes, is_some, ℕ, zero, suc, refl, inl, true, false, not, none, some, List, [],
  map, arith, ◌≡◌, ◌∷◌, ◌++◌,
}
use nokkud.Recording.Uploader.Ends.{close_returns}
use nokkud.Recording.Uploader.Healthy.{messages, written}
use nokkud.Recording.Uploader.Complete.{removed_recording}
use nokkud.Recording.Recorder.{new_recorder, sink_closed}
use nokkud.Recording.Uploader.Overflow.{
  drains, overflow_confirmed, takes, chunk_messages, opened_sent,
}
use nokkud.Recording.Uploader.{
  Act, Answers, Uploader, act, acts, begin_close, chunk, closes, end_close, end_loop, end_stream,
  ends, final, handle_chunk, meta, new_uploader, open_stream, receive, receives, send_chunk,
  send_final, write, writes,
}

abbrev two_chunks : List Act
two_chunks =
    writes (codes "ab")
    ∷ receives takes
    ∷ writes (codes "c")
    ∷ closes
    ∷ writes (codes "d")
    ∷ receives takes
    ∷ ends none none
    ∷ []

whole :
    (acts two_chunks new_uploader).sent ≡ meta ∷ chunk (codes "ab") ∷ chunk (codes "c") ∷ final ∷ []
unfolding acts act write begin_close receive handle_chunk open_stream send_chunk end_loop end_stream
    send_final new_uploader codes
whole = refl

removed_recording_example :
    ((acts two_chunks new_uploader).sent ≡ messages true (written false two_chunks))
    × ((acts two_chunks new_uploader).confirmed ≡ not (is_empty (written false two_chunks)))
unfolding acts act write begin_close receive handle_chunk open_stream send_chunk end_loop end_stream
    send_final new_uploader codes end_close sink_closed new_recorder
removed_recording_example =
    removed_recording two_chunks (new_recorder 1000 true)
      (tt, (tt, (tt, (tt, (tt, (tt, (inl refl, tt))))))) refl refl

-- The stream of the second chunk has ended.
abbrev refused : Answers
refused = record { opened = none; send = some (codes "EOF"); answer = some (codes "full") }

abbrev answered : ℕ → List Answers
answered zero = refused ∷ []
answered (suc n) = takes ∷ answered n

close_returns_example :
    let u =
      end_loop none none
        (acts (map (λ a. receives a) (answered 63)) (begin_close (acts two_chunks new_uploader))) in
    (u.done ≡ true) × ((end_close u).1 ≡ u.err)
close_returns_example = close_returns two_chunks (answered 63) none none (omega arith)

abbrev queued : ℕ → List Bytes
queued zero = []
queued (suc n) = codes "x" ∷ queued n

abbrev full_queue : Uploader
full_queue = record new_uploader { chunks = queued 64 }

overflow_confirmed_example :
    let v =
      end_loop none none
        (acts (drains full_queue.chunks) (begin_close (write (codes "y") full_queue))) in
    (v.sent ≡ opened_sent full_queue ++ (chunk_messages full_queue.chunks ++ (final ∷ [])))
    × ((v.confirmed ≡ true) × (is_some (end_close v).1 ≡ true))
unfolding codes new_uploader
overflow_confirmed_example = overflow_confirmed (codes "y") full_queue refl refl refl refl refl
