-- ===== src/Recording/Labels/Named.antt =====
-- The pattern of a recording names one file of the directory.
use nokkud.Base.{
  ltb, ltb→lt, Bool-cases, and_split, length, take, length-append, length-take, All, All-append,
  Bytes, codes, ℕ, suc, refl, inl, inr, Bool, true, false, not, List, [], arith, All-take, ◌+◌, ◌≤◌,
  ◌≡◌, ◌≢◌, ◌&&◌, ◌∷◌, ◌++◌, ◌==◌, nat_eq, bytes_eq,
}
use nokkud.Recording.Labels.{
  Unicode, cut, is_word, max_snake_case_len, snake, trim, written, join, or_untitled,
  recording_pattern, to_snake_case,
}

-- Neither a path separator nor the star that `os.CreateTemp` replaces.
abbrev pub IsPlain : ℕ → Type 0
IsPlain b = (b ≢ b'/') × (b ≢ b'*')

-- What the documentation says of the packages.
abbrev pub IsEncoding : Unicode → Type 0
IsEncoding u = (r : ℕ) → is_word u r ≡ true → All IsPlain (u.encode (u.to_lower r))

-- Removing invalid bytes leaves a part of the text.
abbrev pub IsRemoval : Unicode → Type 0
IsRemoval u =
    (s : Bytes) → (length (u.to_valid s) ≤ length s) × (All IsPlain s → All IsPlain (u.to_valid s))

not_ltb→le : (a b : ℕ) → ltb a b ≡ false → b ≤ a
not_ltb→le a b h = ground arith

abbrev IsShort : Bytes → Type 0
IsShort l = All IsPlain l × (length l ≤ max_snake_case_len)

module _ (u : Unicode) (encoding : IsEncoding u) (removal : IsRemoval u) where
  written-IsPlain : (was : Bool) (r : ℕ) → All IsPlain (written u was r)
  unfolding written
  written-IsPlain true r = elim (Bool-cases (is_word u r)) [
    | inl w ↦ rw w (encoding r w)
    | inr w ↦ rw w tt
  ]
  written-IsPlain false r = elim (Bool-cases (is_word u r)) [
    | inl w ↦ rw w (encoding r w)
    | inr w ↦ rw w ((omega arith, omega arith), tt)
  ]

  snake-IsPlain : (was : Bool) (rs : List ℕ) → All IsPlain (snake u was rs)
  unfolding snake
  snake-IsPlain was [] = tt
  snake-IsPlain was (r ∷ rs) =
      All-append IsPlain (written u was r) (snake u (not (is_word u r)) rs) (written-IsPlain was r)
        (snake-IsPlain (not (is_word u r)) rs)

  cut-IsShort : (s : Bytes) → All IsPlain s → IsShort (cut u s)
  unfolding cut
  cut-IsShort s h = elim (Bool-cases (ltb max_snake_case_len (length s))) [
    | inl t ↦
        let (short, plain) = removal (take max_snake_case_len s) in
        let len = length-take max_snake_case_len s in
        rw t (plain (All-take IsPlain max_snake_case_len s h), omega arith)
    | inr t ↦ let le = not_ltb→le max_snake_case_len (length s) t in rw t (h, omega arith)
  ]

trim-IsPlain : (s : Bytes) → All IsPlain s → All IsPlain (trim s)
unfolding trim
trim-IsPlain [] h = tt
trim-IsPlain (c ∷ []) h = elim (Bool-cases (c == b'_')) [ inl t ↦ rw t tt | inr t ↦ rw t h ]
trim-IsPlain (c ∷ d ∷ cs) h = (h.0, trim-IsPlain (d ∷ cs) h.1)

length-trim : (s : Bytes) → length (trim s) ≤ length s
unfolding trim
length-trim [] = omega arith
length-trim (c ∷ []) = elim (Bool-cases (c == b'_')) [
  | inl t ↦ rw t (omega arith)
  | inr t ↦ rw t (omega arith)
]
length-trim (c ∷ d ∷ cs) = omega (arith, length-trim (d ∷ cs))

-- A test for bytes that follow the star and the slash.
abbrev pub is_above : Bytes → Bool
is_above [] = true
is_above (b ∷ bs) = ltb b'/' b && is_above bs

pub is_above-IsPlain : (s : Bytes) → is_above s ≡ true → All IsPlain s
is_above-IsPlain [] h = tt
is_above-IsPlain (b ∷ bs) h =
    let (t, r) = and_split (ltb b'/' b) (is_above bs) h in
    let above = ltb→lt b'/' b t in ((omega arith, omega arith), is_above-IsPlain bs r)

or_untitled-IsPlain : (s : Bytes) → All IsPlain s → All IsPlain (or_untitled s)
unfolding or_untitled codes
or_untitled-IsPlain [] h = is_above-IsPlain (codes "untitled") refl
or_untitled-IsPlain (c ∷ cs) h = h

length-or_untitled :
    (s : Bytes)
    → length s ≤ max_snake_case_len
    → (1 ≤ length (or_untitled s)) × (length (or_untitled s) ≤ max_snake_case_len)
unfolding or_untitled codes
length-or_untitled [] h = (omega arith, omega arith)
length-or_untitled (c ∷ cs) h = (omega arith, h)

-- A label: not empty, of at most 64 plain bytes.
abbrev pub IsLabel : Bytes → Type 0
IsLabel l = All IsPlain l × ((1 ≤ length l) × (length l ≤ max_snake_case_len))

-- Every text becomes a label.
pub to_snake_case-IsLabel :
    (u : Unicode) (s : Bytes) → IsEncoding u → IsRemoval u → IsLabel (to_snake_case u s)
unfolding to_snake_case
to_snake_case-IsLabel u s encoding removal =
    let res = snake u true (u.runes s) in
    let (plain, short) =
      cut-IsShort u encoding removal res (snake-IsPlain u encoding removal true (u.runes s)) in
    let fits = length-trim (cut u res) in
    (
      or_untitled-IsPlain (trim (cut u res)) (trim-IsPlain (cut u res) plain),
      length-or_untitled (trim (cut u res)) (omega arith),
    )

-- Three parts of plain bytes, joined.
join-IsPlain : (parts : List Bytes) → All (All IsPlain) parts → All IsPlain (join parts)
unfolding join
join-IsPlain [] h = tt
join-IsPlain (a ∷ []) h = h.0
join-IsPlain (a ∷ b ∷ parts) h =
    All-append IsPlain a (b'-' ∷ join (b ∷ parts)) h.0
      ((omega arith, omega arith), join-IsPlain (b ∷ parts) h.1)

-- The sum of the lengths, each with a dash.
abbrev dashed : List Bytes → ℕ
dashed [] = 0
dashed (a ∷ parts) = suc (length a + dashed parts)

length-join :
    (a : Bytes) (parts : List Bytes) → suc (length (join (a ∷ parts))) ≤ dashed (a ∷ parts)
unfolding join
length-join a [] = omega arith
length-join a (b ∷ parts) =
    let e = length-append a (b'-' ∷ join (b ∷ parts)) in
    let rest = length-join b parts in omega arith

-- If the printed time has at most 16 plain bytes, a letter or digit has no slash and no star in its
-- encoding and removing invalid bytes adds none: whatever user name and session id a client comes
-- with, the pattern of the recording has no path separator, its only star is the one before the
-- suffix, and it has at most 156 bytes.
pub recording_pattern-IsFileName :
    (u : Unicode) (stamp user session_id : Bytes)
    → IsEncoding u
    → IsRemoval u
    → All IsPlain stamp
    → length stamp ≤ 16
    → (front : Bytes) × ((recording_pattern u stamp (to_snake_case u user) session_id
          ≡ front ++ codes "-*.cast.gz")
        × (All IsPlain front × (length front ≤ 146)))
unfolding recording_pattern
recording_pattern-IsFileName u stamp user [] encoding removal plain short =
    let (p, (_, q)) = to_snake_case-IsLabel u user encoding removal in
    let parts = stamp ∷ to_snake_case u user ∷ [] in
    let fits = length-join stamp (to_snake_case u user ∷ []) in
    (join parts, (refl, (join-IsPlain parts (plain, (p, tt)), omega arith)))
recording_pattern-IsFileName u stamp user (c ∷ cs) encoding removal plain short =
    let (p, (_, q)) = to_snake_case-IsLabel u user encoding removal in
    let (p', (_, q')) = to_snake_case-IsLabel u (c ∷ cs) encoding removal in
    let parts = stamp ∷ to_snake_case u user ∷ to_snake_case u (c ∷ cs) ∷ [] in
    let fits = length-join stamp (to_snake_case u user ∷ to_snake_case u (c ∷ cs) ∷ []) in
    (join parts, (refl, (join-IsPlain parts (plain, (p, (p', tt))), omega arith)))
