-- ===== src/Recording/Uploader/Complete.antt =====
-- What the backend has of an upload that was closed without an error.
use nokkud.Base.{
  is_empty, Bool-cases, All, Bytes, is_some, refl, inl, inr, Bool, true, false, not, Option, none,
  List, [], append-nil, append_assoc, arith, ◌≡◌, ◌||◌, ◌∷◌, ◌++◌,
}
use nokkud.Recording.Recorder.{Recorder, sink_closed}
use nokkud.Recording.Uploader.Sender.{end_loop-Inv, receive-Inv}
use nokkud.Recording.Uploader.Healthy.{
  Healthy, Inv, Surfaces, act-failed, close-Inv, is_closes, messages, write-Inv, write-same,
  written,
}
use nokkud.Recording.Uploader.{
  Act, Uploader, act, acts, begin_close, closes, end_close, end_loop, end_stream, ends, fail,
  handle_chunk, new_uploader, open_stream, receive, receives, send_chunk, send_final, write, writes,
}

acts-failed : (l : List Act) (u : Uploader) → is_some u.err ≡ true → is_some (acts l u).err ≡ true
unfolding acts
acts-failed [] u h = h
acts-failed (a ∷ l) u h = acts-failed l (act a u) (act-failed a u h)

-- Only the closing closes.
act-closed : (a : Act) (u : Uploader) → (act a u).closed ≡ (u.closed || is_closes a)
unfolding act write fail begin_close receive handle_chunk open_stream send_chunk end_loop end_stream
    send_final
act-closed (writes p) u = ground arith
act-closed closes u = ground arith
act-closed (receives a) u = ground arith
act-closed (ends send answer) u = ground arith

written-split :
    (c : Bool) (a : Act) (l : List Act)
    → written c (a ∷ l) ≡ written c (a ∷ []) ++ written (c || is_closes a) l
written-split c (writes p) l = ground arith
written-split c closes l = ground arith
written-split c (receives a) l = ground arith
written-split c (ends send answer) l = ground arith

act-Inv :
    (w : List Bytes) (a : Act) (u : Uploader)
    → Surfaces a
    → Healthy w u
    → Inv (w ++ written u.closed (a ∷ [])) (act a u)
unfolding act
act-Inv w (writes p) u s v = elim (Bool-cases (is_empty p || u.closed)) [
  | inl e ↦ rw (write-same p u e, e, append-nil w) (inr v)
  | inr e ↦ rw (e) (write-Inv w p u e v)
]
act-Inv w closes u s v = rw (append-nil w) (inr (close-Inv w u v))
act-Inv w (receives a) u s v = rw (append-nil w) (receive-Inv w a u v)
act-Inv w (ends send answer) u s v = rw (append-nil w) (end_loop-Inv w send answer u s v)

acts-Inv :
    (l : List Act) (w : List Bytes) (u : Uploader)
    → All Surfaces l
    → Inv w u
    → Inv (w ++ written u.closed l) (acts l u)
unfolding acts
acts-Inv [] w u s (inl h) = inl h
acts-Inv [] w u s (inr v) = rw (append-nil w) (inr v)
acts-Inv (a ∷ l) w u s (inl h) = inl (acts-failed l (act a u) (act-failed a u h))
acts-Inv (a ∷ l) w u s (inr v) =
    rw (next) (acts-Inv l (w ++ written u.closed (a ∷ [])) (act a u) s.1 (act-Inv w a u s.0 v))
  where
    next :
        w ++ written u.closed (a ∷ l)
        ≡ (w ++ written u.closed (a ∷ [])) ++ written (act a u).closed l
    next = ground (
      arith,
      act-closed a u,
      written-split u.closed a l,
      append_assoc w (written u.closed (a ∷ [])) (written (act a u).closed l),
    )

new_uploader-Healthy : Healthy [] new_uploader
unfolding new_uploader
new_uploader-Healthy = record {
  taken = [];
  err = refl;
  broken = refl;
  stream = refl;
  whole = refl;
  sent = refl;
  shut = refl;
  ended = refl;
  confirmed = refl;
}

-- A failed or unfinished upload reports an error.
end_close-none : (u : Uploader) → (end_close u).1 ≡ none → (u.err ≡ none) × (u.done ≡ true)
unfolding end_close
end_close-none u h = (ground arith, ground arith)

end_close-whole :
    (w : List Bytes) (u : Uploader)
    → (end_close u).1 ≡ none
    → Inv w u
    → (u.sent ≡ messages true w) × (u.confirmed ≡ not (is_empty w))
end_close-whole w u e (inl h) = absurd (ground (arith, end_close-none u e))
end_close-whole w u e (inr v) = (
  ground (arith, v.sent, all, end_close-none u e),
  ground (arith, v.confirmed, v.stream, all, end_close-none u e),
)
  where
    drained : u.chunks ≡ []
    drained = go u.chunks refl
      where
        go : (ps : List Bytes) → u.chunks ≡ ps → u.chunks ≡ []
        go [] c = c
        go (_ ∷ _) c = absurd (ground (arith, v.ended, end_close-none u e))

    all : v.taken ≡ w
    all = ground (arith, v.whole, drained, append-nil v.taken)

-- A close that reports no error comes from an upload whose stream took the data of all the writes
-- before the closing, between the metadata and the final message, and whose end the backend
-- confirmed; for no data there is no stream at all. The condition: a final message that the stream
-- refuses shows in the answer to the end of the stream.
pub closed_upload :
    (l : List Act)
    → All Surfaces l
    → (end_close (acts l new_uploader)).1 ≡ none
    → ((acts l new_uploader).sent ≡ messages true (written false l))
      × ((acts l new_uploader).confirmed ≡ not (is_empty (written false l)))
unfolding new_uploader
closed_upload l s e =
    end_close-whole (written false l) (acts l new_uploader) e
      (acts-Inv l [] new_uploader s (inr new_uploader-Healthy))

-- A recording whose file `closeLocked` removes after its upload is in the backend: the stream took
-- all that was written to it up to the closing, with its metadata and its final message, and the
-- backend confirmed it if there was anything. The condition is that of `closed_upload`.
pub removed_recording :
    (l : List Act) (r : Recorder)
    → All Surfaces l
    → r.removed ≡ false
    → (sink_closed (not (is_some (end_close (acts l new_uploader)).1)) r).removed ≡ true
    → ((acts l new_uploader).sent ≡ messages true (written false l))
      × ((acts l new_uploader).confirmed ≡ not (is_empty (written false l)))
unfolding sink_closed
removed_recording l r s kept h =
    closed_upload l s (none_of (end_close (acts l new_uploader)).1 (ground (arith, kept)))
  where
    none_of : (o : Option Bytes) → not (is_some o) ≡ true → o ≡ none
    none_of o e = ground arith
