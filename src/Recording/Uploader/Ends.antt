-- ===== src/Recording/Uploader/Ends.antt =====
-- Closing an upload ends: the sender drains the queue whatever the stream answers.
use nokkud.Base.{
  is_empty, length, length-append, Bytes, refl, true, Option, List, [], map, arith, ◌-◌, ◌≤◌, ◌≡◌,
  ◌∙◌, ◌∷◌,
}
use nokkud.Recording.Uploader.{
  Act, Answers, Uploader, act, acts, begin_close, closes, end_loop, end_stream, ends, fail,
  handle_chunk, max_buffered_chunks, open_stream, receive, receives, send_chunk, send_final, write,
  writes, end_close, new_uploader,
}

-- The queue of an upload never holds more than the channel does, so a write never waits.
act-Bounded :
    (a : Act) (u : Uploader)
    → length u.chunks ≤ max_buffered_chunks
    → length (act a u).chunks ≤ max_buffered_chunks
unfolding act write fail begin_close receive handle_chunk open_stream send_chunk end_loop end_stream
    send_final
act-Bounded (writes p) u h = ground (arith, length-append u.chunks (p ∷ []))
act-Bounded closes u h = h
act-Bounded (receives a) u h = ground arith
act-Bounded (ends send answer) u h = ground arith

pub acts-Bounded :
    (l : List Act) (u : Uploader)
    → length u.chunks ≤ max_buffered_chunks
    → length (acts l u).chunks ≤ max_buffered_chunks
unfolding acts
acts-Bounded [] u h = h
acts-Bounded (a ∷ l) u h = acts-Bounded l (act a u) (act-Bounded a u h)

receive-shrinks :
    (a : Answers) (u : Uploader)
    → (length (receive a u).chunks ≡ length u.chunks - 1) × ((receive a u).shut ≡ u.shut)
unfolding receive handle_chunk open_stream send_chunk fail
receive-shrinks a u = (ground arith, ground arith)

rounds-drain :
    (answers : List Answers) (u : Uploader)
    → length u.chunks ≤ length answers
    → (length (acts (map (λ a. receives a) answers) u).chunks ≡ 0)
      × ((acts (map (λ a. receives a) answers) u).shut ≡ u.shut)
unfolding acts act
rounds-drain [] u h = (omega arith, refl)
rounds-drain (a ∷ answers) u h =
    let (left, kept) = receive-shrinks a u in
    let (drained, same) = rounds-drain answers (receive a u) (omega arith) in (drained, same ∙ kept)

end_loop-done :
    (send answer : Option Bytes) (u : Uploader)
    → u.shut ≡ true
    → length u.chunks ≡ 0
    → (end_loop send answer u).done ≡ true
unfolding end_loop end_stream send_final fail
end_loop-done send answer u s c = ground (arith, empty u.chunks)
  where
    empty : (ps : List Bytes) → length ps ≡ 0 → is_empty ps ≡ true
    empty [] e = refl
    empty (_ ∷ _) e = absurd (omega arith)

-- After any actions, closing an upload ends without the timeout once the sender has gone 64 rounds,
-- whatever the stream answers to each of them, to the final message and to its end: the sender is
-- done, the queue is empty, and the error that is reported is that of the upload, if it has one.
pub close_returns :
    (l : List Act) (answers : List Answers) (send answer : Option Bytes)
    → max_buffered_chunks ≤ length answers
    → let u =
        end_loop send answer
          (acts (map (λ a. receives a) answers) (begin_close (acts l new_uploader))) in
      (u.done ≡ true) × ((end_close u).1 ≡ u.err)
unfolding begin_close end_close new_uploader
close_returns l answers send answer enough = (ended, ground (arith, ended))
  where
    closing : Uploader
    closing = begin_close (acts l new_uploader)

    bounded : length (acts l new_uploader).chunks ≤ max_buffered_chunks
    bounded = acts-Bounded l new_uploader (omega arith)

    drained :
        (length (acts (map (λ a. receives a) answers) closing).chunks ≡ 0)
        × ((acts (map (λ a. receives a) answers) closing).shut ≡ true)
    drained = rounds-drain answers closing (omega (arith, bounded))

    ended : (end_loop send answer (acts (map (λ a. receives a) answers) closing)).done ≡ true
    ended =
        end_loop-done send answer (acts (map (λ a. receives a) answers) closing) drained.1 drained.0
