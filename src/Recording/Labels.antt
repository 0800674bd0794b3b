-- ===== src/Recording/Labels.antt =====
-- internal/recording/sanitize.go and recordingPattern of internal/recording/retention.go: the name
-- of a recording's file. The tables and encodings of the packages unicode, utf8 and strings and the
-- printed time are arguments.
pub mod Named
mod Tests
use nokkud.Base.{
  ltb, length, take, Bytes, codes, ℕ, Bool, true, not, List, [], ◌||◌, ◌∷◌, ◌++◌, ◌==◌,
  if◌then◌else◌, nat_eq, bytes_eq,
}

-- `maxSnakeCaseLen`.
abbrev pub max_snake_case_len : ℕ
max_snake_case_len = 64

-- What the source calls of the standard library: `unicode.IsLetter` and `unicode.IsDigit`,
-- `unicode.ToLower`, the runes that `range` gives, the bytes that `WriteRune` appends, and
-- `strings.ToValidUTF8` with an empty replacement.
pub record Unicode : Type 0 where
  pub is_letter : ℕ → Bool
  pub is_digit : ℕ → Bool
  pub to_lower : ℕ → ℕ
  pub runes : Bytes → List ℕ
  pub encode : ℕ → Bytes
  pub to_valid : Bytes → Bytes

unfoldable pub is_word : Unicode → ℕ → Bool
is_word u r = u.is_letter r || u.is_digit r

-- What one round of the loop writes.
unfoldable pub written : Unicode → Bool → ℕ → Bytes
unfolding is_word
written u last_was_underscore r =
    if is_word u r
    then u.encode (u.to_lower r)
    else (if not last_was_underscore then b'_' ∷ [] else [])

-- The loop; after a round the flag tells whether the rune was no letter or digit.
unfoldable pub snake : Unicode → Bool → List ℕ → Bytes
unfolding written
snake u last_was_underscore [] = []
snake u last_was_underscore (r ∷ rs) =
    written u last_was_underscore r ++ snake u (not (is_word u r)) rs

-- The cut to the limit.
unfoldable pub cut : Unicode → Bytes → Bytes
cut u res =
    if ltb max_snake_case_len (length res) then u.to_valid (take max_snake_case_len res) else res

-- The trailing underscore that is removed.
unfoldable pub trim : Bytes → Bytes
trim [] = []
trim (c ∷ []) = if c == b'_' then [] else c ∷ []
trim (c ∷ d ∷ cs) = c ∷ trim (d ∷ cs)

unfoldable pub or_untitled : Bytes → Bytes
or_untitled [] = codes "untitled"
or_untitled (c ∷ cs) = c ∷ cs

-- `toSnakeCase`.
unfoldable pub to_snake_case : Unicode → Bytes → Bytes
unfolding snake cut trim or_untitled
to_snake_case u s = or_untitled (trim (cut u (snake u true (u.runes s))))

-- `strings.Join` with a dash.
unfoldable pub join : List Bytes → Bytes
join [] = []
join (a ∷ []) = a
join (a ∷ b ∷ parts) = a ++ (b'-' ∷ join (b ∷ parts))

-- The parts of `recordingPattern`.
unfoldable pub pattern_parts : Unicode → Bytes → Bytes → Bytes → List Bytes
unfolding to_snake_case
pattern_parts u stamp safe_label [] = stamp ∷ safe_label ∷ []
pattern_parts u stamp safe_label (c ∷ cs) = stamp ∷ safe_label ∷ to_snake_case u (c ∷ cs) ∷ []

-- `recordingPattern`; the first argument after the tables is the time as it is printed.
unfoldable pub recording_pattern : Unicode → Bytes → Bytes → Bytes → Bytes
unfolding join pattern_parts
recording_pattern u stamp safe_label session_id =
    join (pattern_parts u stamp safe_label session_id) ++ codes "-*.cast.gz"
