-- ===== src/Recording/Uploader/Sender.antt =====
-- The sender of an upload keeps it whole.
use mathlib.Core.List.{map-append}
use nokkud.Base.{
  is_empty, Bool-cases, Option-cases, Bytes, is_some, refl, sym, inl, inr, true, false, not, Option,
  List, [], map, append-nil, append_assoc, arith, ◌≡◌, ◌⊎◌, ◌&&◌, ◌||◌, ◌∷◌, ◌++◌, if◌then◌else◌,
}
use nokkud.Recording.Uploader.{
  Answers, Uploader, chunk, end_loop, end_stream, ends, fail, final, handle_chunk, meta,
  open_stream, receive, send_chunk, send_final,
}
use nokkud.Recording.Uploader.Healthy.{Healthy, Inv, Surfaces, messages}

not-is_empty-snoc : (ts : List Bytes) (p : Bytes) → not (is_empty (ts ++ (p ∷ []))) ≡ true
not-is_empty-snoc [] p = refl
not-is_empty-snoc (_ ∷ _) p = refl

messages-snoc :
    (ts : List Bytes) (p : Bytes)
    → messages false (ts ++ (p ∷ []))
      ≡ (if is_empty ts then meta ∷ [] else messages false ts) ++ (chunk p ∷ [])
messages-snoc [] p = refl
messages-snoc (t ∷ ts) p = ground (
  arith,
  map-append (λ (d : Bytes). chunk d) ts (p ∷ []),
  append-nil (map (λ (d : Bytes). chunk d) ts),
  append-nil (map (λ (d : Bytes). chunk d) (ts ++ (p ∷ []))),
)

pub messages-end :
    (t : Bytes) (ts : List Bytes) → messages true (t ∷ ts) ≡ messages false (t ∷ ts) ++ (final ∷ [])
messages-end t ts = ground (arith, append-nil (map (λ (d : Bytes). chunk d) ts))

-- A round of the loop fails or takes the chunk, with the metadata before the first.
handle_chunk-cases :
    (a : Answers) (p : Bytes) (u : Uploader)
    → u.broken ≡ false
    → (is_some (handle_chunk a p u).err ≡ true)
      ⊎ (handle_chunk a p u ≡ record u {
        stream = true;
        sent = (if u.stream then u.sent else u.sent ++ (meta ∷ [])) ++ (chunk p ∷ []);
      })
unfolding handle_chunk open_stream send_chunk fail
handle_chunk-cases a p u b = elim (Bool-cases u.stream) [
  | inl s ↦ elim (Option-cases a.send) [ inl e ↦ inr (ground arith) | inr e ↦ inl (ground arith) ]
  | inr s ↦ elim (Option-cases a.opened) [
    | inl o ↦ elim (Option-cases a.send) [ inl e ↦ inr (ground arith) | inr e ↦ inl (ground arith) ]
    | inr o ↦ inl (ground arith)
  ]
]

-- What a healthy upload is after one more chunk is taken.
taken-Healthy :
    (w ps : List Bytes) (p : Bytes) (u : Uploader)
    → u.chunks ≡ p ∷ ps
    → Healthy w u
    → Healthy w (record u {
      chunks = ps;
      stream = true;
      sent = (if u.stream then u.sent else u.sent ++ (meta ∷ [])) ++ (chunk p ∷ []);
    })
taken-Healthy w ps p u e v = record {
  taken = v.taken ++ (p ∷ []);
  err = v.err;
  broken = v.broken;
  stream = sym (not-is_empty-snoc v.taken p);
  whole = ground (arith, append_assoc v.taken (p ∷ []) ps, v.whole);
  sent = ground (arith, opened, running, messages-snoc v.taken p);
  shut = v.shut;
  ended = ground (arith, v.ended, running);
  confirmed = ground (arith, v.confirmed, running);
}
  where
    running : u.done ≡ false
    running = ground (arith, v.ended)

    opened :
        (if u.stream then u.sent else u.sent ++ (meta ∷ []))
        ≡ (if is_empty v.taken then meta ∷ [] else messages false v.taken)
    opened = go v.taken refl
      where
        go :
            (ts : List Bytes)
            → v.taken ≡ ts
            → (if u.stream then u.sent else u.sent ++ (meta ∷ []))
              ≡ (if is_empty v.taken then meta ∷ [] else messages false v.taken)
        go [] t = ground (arith, t, v.sent, v.stream, running)
        go (_ ∷ _) t = ground (arith, t, v.sent, v.stream, running)

receive-empty : (a : Answers) (u : Uploader) → u.chunks ≡ [] → receive a u ≡ u
unfolding receive
receive-empty a u e = rw (e) refl

pub receive-next :
    (a : Answers) (p : Bytes) (ps : List Bytes) (u : Uploader)
    → u.chunks ≡ p ∷ ps
    → receive a u ≡ handle_chunk a p (record u { chunks = ps })
unfolding receive
receive-next a p ps u e = rw (e) refl

pub receive-Inv : (w : List Bytes) (a : Answers) (u : Uploader) → Healthy w u → Inv w (receive a u)
receive-Inv w a u v = go u.chunks refl
  where
    go : (ps : List Bytes) → u.chunks ≡ ps → Inv w (receive a u)
    go [] e = rw (receive-empty a u e) (inr v)
    go (p ∷ ps) e =
        rw (receive-next a p ps u e)
          (elim (handle_chunk-cases a p (record u { chunks = ps }) v.broken) [
            | inl h ↦ inl h
            | inr h ↦ rw (h) (inr (taken-Healthy w ps p u e v))
          ])

-- The sender waits, or its end fails, or it ends with what it sent or with the final message.
end_loop-cases :
    (send answer : Option Bytes) (u : Uploader)
    → u.broken ≡ false
    → Surfaces (ends send answer)
    → (end_loop send answer u ≡ u)
      ⊎ ((is_some (end_loop send answer u).err ≡ true)
          ⊎ ((((u.shut && is_empty u.chunks) && not u.done) ≡ true)
              × ((end_loop send answer u ≡ record u {
                done = true;
                confirmed = u.stream || u.confirmed;
                sent = if u.stream then u.sent ++ (final ∷ []) else u.sent;
              }))))
unfolding end_loop end_stream send_final fail
end_loop-cases send answer u b s = elim (Bool-cases ((u.shut && is_empty u.chunks) && not u.done)) [
  | inr e ↦ inl (ground arith)
  | inl e ↦ elim (Bool-cases u.stream) [
    | inr o ↦ inr (inr (e, ground arith))
    | inl o ↦ elim (Option-cases answer) [
      | inr r ↦ inr (inl (ground arith))
      | inl r ↦ elim (Option-cases send) [
        | inl q ↦ inr (inr (e, ground arith))
        | inr q ↦ absurd (ground (arith, s))
      ]
    ]
  ]
]

pub end_loop-Inv :
    (w : List Bytes) (send answer : Option Bytes) (u : Uploader)
    → Surfaces (ends send answer)
    → Healthy w u
    → Inv w (end_loop send answer u)
end_loop-Inv w send answer u s v = elim (end_loop-cases send answer u v.broken s) [
  | inl e ↦ rw (e) (inr v)
  | inr (inl e) ↦ inl e
  | inr (inr (d, e)) ↦ rw (e) (
      inr (record {
        taken = v.taken;
        err = v.err;
        broken = v.broken;
        stream = v.stream;
        whole = v.whole;
        sent = ground (arith, v.sent, v.stream, d, ended v.taken);
        shut = v.shut;
        ended = ground (arith, d, v.shut);
        confirmed = ground (arith, v.confirmed, d);
      }))
]
  where
    ended :
        (ts : List Bytes)
        → (if not (is_empty ts) then messages false ts ++ (final ∷ []) else messages false ts)
          ≡ messages true ts
    ended [] = refl
    ended (t ∷ ts) = sym (messages-end t ts)
