-- ===== src/Client/Relay/Whole.antt =====
-- What the reader of a relayed connection sees of the stream's frames.
use nokkud.Base.{
  is_empty, length, take, drop, take-append-drop, length-take, Bytes, ℕ, zero, suc, refl, inl, inr,
  true, false, List, [], append_assoc, arith, ◌≤◌, ◌≡◌, ◌≢◌, ◌⊎◌, ◌∷◌, ◌++◌,
}
use nokkud.Client.Relay.{
  Response, RelayConn, ReadResult, closed_frame, data_frame, eof, failed, got, unset, copy_pending,
  read, receive,
}

-- The data of the frames before the first closing one.
abbrev pub data_of : List Response → Bytes
data_of [] = []
data_of (data_frame d ∷ ms) = d ++ data_of ms
data_of (closed_frame ∷ ms) = []
data_of (unset ∷ ms) = data_of ms

-- What a read owes: the bytes it gives and what is left are what there was, nothing is given
-- only for an empty buffer, and an end is reported only when all was given.
abbrev pub Reads : ℕ → Bytes → ReadResult × (RelayConn × List Response) → Type 0
Reads n whole (got d, (c, ms)) =
    (d ++ (c.pending ++ data_of ms) ≡ whole) × ((length d ≤ n) × ((n ≡ 0) ⊎ (d ≢ [])))
Reads n whole (eof, _) = whole ≡ []
Reads n whole (failed, _) = whole ≡ []

take-some : (n : ℕ) (p : Bytes) → is_empty p ≡ false → (n ≡ 0) ⊎ (take n p ≢ [])
take-some zero p h = inl refl
take-some (suc n) [] h = ground arith
take-some (suc n) (x ∷ p) h = inr (λ q. ground arith)

copied :
    (n : ℕ) (c : RelayConn) (ms : List Response)
    → is_empty c.pending ≡ false
    → Reads n
        (c.pending ++ data_of ms)
        (got (take n c.pending), (record c { pending = drop n c.pending }, ms))
copied n c ms h = (
  ground (
    arith,
    take-append-drop n c.pending,
    append_assoc (take n c.pending) (drop n c.pending) (data_of ms),
  ),
  (ground (arith, length-take n c.pending), take-some n c.pending h),
)

receive-Reads :
    (n : ℕ) (c : RelayConn) (ms : List Response)
    → is_empty c.pending ≡ true
    → Reads n (data_of ms) (receive n c ms)
unfolding receive copy_pending
receive-Reads n c [] h = refl
receive-Reads n c (closed_frame ∷ ms) h = refl
receive-Reads n c (unset ∷ ms) h = receive-Reads n c ms h
receive-Reads n c (data_frame [] ∷ ms) h = receive-Reads n (record c { pending = [] }) ms refl
receive-Reads n c (data_frame (x ∷ d) ∷ ms) h = copied n (record c { pending = x ∷ d }) ms refl

-- A read gives the next bytes of what the stream's data frames carry: with what stays pending and
-- with the frames not yet received, they are all the data that there was, in order. It gives at
-- most as many bytes as fit, at least one if any fit, and the end, or an error, only when the
-- data before the closing frame was all given.
pub read-Reads :
    (n : ℕ) (c : RelayConn) (ms : List Response) → Reads n (c.pending ++ data_of ms) (read n c ms)
unfolding read copy_pending
read-Reads n c ms = go c.pending refl
  where
    go : (p : Bytes) → c.pending ≡ p → Reads n (c.pending ++ data_of ms) (read n c ms)
    go [] e = rw e (receive-Reads n (record c { pending = [] }) ms refl)
    go (x ∷ p) e = rw e (copied n (record c { pending = x ∷ p }) ms refl)
