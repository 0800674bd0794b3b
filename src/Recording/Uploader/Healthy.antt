-- ===== src/Recording/Uploader/Healthy.antt =====
-- An upload without an error so far: what its stream took and what is still in its queue.
use nokkud.Base.{
  is_empty, ltb, Bool-cases, length, Bytes, is_some, refl, inl, inr, Bool, true, false, not, none,
  List, [], map, append_assoc, arith, ◌≡◌, ◌⊎◌, ◌&&◌, ◌||◌, ◌∷◌, ◌++◌, if◌then◌else◌,
}
use nokkud.Recording.Uploader.{
  Act, Message, Uploader, act, begin_close, chunk, closes, end_loop, end_stream, ends, fail, final,
  handle_chunk, max_buffered_chunks, meta, open_stream, receive, receives, send_chunk, write,
  writes,
}

-- The data of the writes that come before the closing.
abbrev pub written : Bool → List Act → List Bytes
written closed [] = []
written closed (writes p ∷ l) =
    if is_empty p || closed then written closed l else p ∷ written closed l
written closed (closes ∷ l) = written true l
written closed (_ ∷ l) = written closed l

-- The messages of an upload: none for no data, else the data between the metadata and the end.
abbrev pub messages : Bool → List Bytes → List Message
messages ended [] = []
messages ended (p ∷ ps) = meta ∷ (map (λ d. chunk d) (p ∷ ps) ++ (if ended then final ∷ [] else []))

abbrev pub is_closes : Act → Bool
is_closes closes = true
is_closes _ = false

-- A final message that the stream refuses shows in its answer.
abbrev pub Surfaces : Act → Type 0
Surfaces (ends send answer) = (send ≡ none) ⊎ (is_some answer ≡ true)
Surfaces _ = Unit {0}

-- An upload without an error so far, of the data `w`.
pub record Healthy (w : List Bytes) (u : Uploader) : Type 0 where
  pub taken : List Bytes
  pub err : u.err ≡ none
  pub broken : u.broken ≡ false
  pub stream : u.stream ≡ not (is_empty taken)
  pub whole : taken ++ u.chunks ≡ w
  pub sent : u.sent ≡ messages u.done taken
  pub shut : u.shut ≡ u.closed
  pub ended : (not u.done || (u.closed && is_empty u.chunks)) ≡ true
  pub confirmed : u.confirmed ≡ (u.done && u.stream)

abbrev pub Inv : List Bytes → Uploader → Type 0
Inv w u = (is_some u.err ≡ true) ⊎ Healthy w u

pub act-failed : (a : Act) (u : Uploader) → is_some u.err ≡ true → is_some (act a u).err ≡ true
unfolding act write fail begin_close receive handle_chunk open_stream send_chunk end_loop end_stream
act-failed (writes p) u h = ground arith
act-failed closes u h = h
act-failed (receives a) u h = ground arith
act-failed (ends send answer) u h = ground arith

pub write-same : (p : Bytes) (u : Uploader) → (is_empty p || u.closed) ≡ true → write p u ≡ u
unfolding write
write-same p u e = ground arith

pub write-Inv :
    (w : List Bytes) (p : Bytes) (u : Uploader)
    → (is_empty p || u.closed) ≡ false
    → Healthy w u
    → Inv (w ++ (p ∷ [])) (write p u)
unfolding write fail
write-Inv w p u e v = elim (Bool-cases (ltb (length u.chunks) max_buffered_chunks)) [
  | inl r ↦ inr (record {
    taken = v.taken;
    err = ground (arith, v.err);
    broken = ground (arith, v.broken);
    stream = ground (arith, v.stream);
    whole = ground (arith, v.whole, v.err, append_assoc v.taken u.chunks (p ∷ []));
    sent = ground (arith, v.sent);
    shut = ground (arith, v.shut);
    ended = ground (arith, v.ended);
    confirmed = ground (arith, v.confirmed);
  })
  | inr r ↦ inl (ground (arith, v.err))
]

pub close-Inv : (w : List Bytes) (u : Uploader) → Healthy w u → Healthy w (begin_close u)
unfolding begin_close
close-Inv w u v = record {
  taken = v.taken;
  err = v.err;
  broken = v.broken;
  stream = v.stream;
  whole = v.whole;
  sent = v.sent;
  shut = refl;
  ended = ground (arith, v.ended);
  confirmed = v.confirmed;
}
