-- ===== src/Recording/Labels/Tests.antt =====
-- A user name and a session id that try to leave the directory, with the tables of ASCII.
use nokkud.Base.{
  leb, length, All, Bytes, codes, ℕ, refl, Bool, [], arith, ◌+◌, ◌≤◌, ◌≡◌, ◌&&◌, ◌||◌, ◌∷◌, ◌++◌,
  if◌then◌else◌,
}
use nokkud.Recording.Labels.Named.{
  IsEncoding, IsPlain, IsRemoval, recording_pattern-IsFileName, is_above-IsPlain,
}
use nokkud.Recording.Labels.{
  Unicode, cut, is_word, join, or_untitled, pattern_parts, recording_pattern, snake, to_snake_case,
  trim, written,
}

abbrev between : ℕ → ℕ → ℕ → Bool
between a b r = leb a r && leb r b

abbrev ascii : Unicode
ascii = record {
  is_letter = λ r. between b'a' b'z' r || between b'A' b'Z' r;
  is_digit = between b'0' b'9';
  to_lower = λ r. if between b'A' b'Z' r then r + 32 else r;
  runes = λ s. s;
  encode = λ r. r ∷ [];
  to_valid = λ s. s;
}

ascii-IsEncoding : IsEncoding ascii
unfolding is_word
ascii-IsEncoding r h = (ground arith, tt)

ascii-IsRemoval : IsRemoval ascii
ascii-IsRemoval s = (omega arith, λ h. h)

abbrev stamp : Bytes
stamp = codes "20260102T030405Z"

named :
    recording_pattern ascii stamp (to_snake_case ascii (codes "../Ann*")) (codes "a/.b")
    ≡ codes "20260102T030405Z-ann-a_b-*.cast.gz"
unfolding recording_pattern pattern_parts join to_snake_case or_untitled trim cut snake written
    is_word codes
named = refl

untitled : to_snake_case ascii (codes "/../") ≡ codes "untitled"
unfolding to_snake_case or_untitled trim cut snake written is_word codes
untitled = refl

stamp-IsPlain : All IsPlain stamp
unfolding codes
stamp-IsPlain = is_above-IsPlain stamp refl

stamp_short : length stamp ≤ 16
unfolding codes
stamp_short = omega arith

recording_pattern-IsFileName_example :
    (front : Bytes) × ((recording_pattern ascii stamp
          (to_snake_case ascii (codes "../Ann*"))
          (codes "a/.b")
        ≡ front ++ codes "-*.cast.gz")
      × (All IsPlain front × (length front ≤ 146)))
recording_pattern-IsFileName_example =
    recording_pattern-IsFileName ascii stamp (codes "../Ann*") (codes "a/.b") ascii-IsEncoding
      ascii-IsRemoval stamp-IsPlain stamp_short
