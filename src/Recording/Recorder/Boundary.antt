-- ===== src/Recording/Recorder/Boundary.antt =====
-- The characters of UTF-8, and what `incompleteTail` looks at.

use nokkud.Base.{
  leb, Bool-cases, length, drop, length-append, ==→eq, Bytes, ℕ, zero, suc, refl, inl, inr, true,
  false, [], arith, ◌+◌, ◌-◌, ◌≤◌, ◌<◌, ◌≡◌, ◌∷◌, ◌++◌, ◌==◌, nat_eq, bytes_eq,
}
use nokkud.Recording.Recorder.Utf8.{incomplete_tail, rune_start, second_fits, tail_loop}

-- A continuation byte.
abbrev pub IsNext : ℕ → Type 0
IsNext c = (128 ≤ c) × (c ≤ 191)

-- The texts of UTF-8: the first byte gives the length of a character, and the second may be limited.
pub data IsUtf8 : Bytes → Type 0 where
  none_left : {l : Bytes} → l ≡ [] → IsUtf8 l
  one : {l : Bytes} (c : ℕ) (s : Bytes) → l ≡ c ∷ s → c < 128 → IsUtf8 s → IsUtf8 l
  two :
      {l : Bytes} (c d : ℕ) (s : Bytes)
      → l ≡ c ∷ d ∷ s
      → (194 ≤ c) × (c < 224)
      → IsNext d
      → IsUtf8 s
      → IsUtf8 l
  three :
      {l : Bytes} (c d e : ℕ) (s : Bytes)
      → l ≡ c ∷ d ∷ e ∷ s
      → (224 ≤ c) × (c < 240)
      → second_fits c d ≡ true
      → IsNext e
      → IsUtf8 s
      → IsUtf8 l
  four :
      {l : Bytes} (c d e f : ℕ) (s : Bytes)
      → l ≡ c ∷ d ∷ e ∷ f ∷ s
      → (240 ≤ c) × (c < 245)
      → second_fits c d ≡ true
      → IsNext e
      → IsNext f
      → IsUtf8 s
      → IsUtf8 l

-- A part `w` of a text with `rest` behind it, cut at a boundary.
pub record Cut (w rest : Bytes) : Type 0 where
  pub front : Bytes
  pub back : Bytes
  pub parts : w ≡ front ++ back
  pub front_valid : IsUtf8 front
  pub back_valid : IsUtf8 (back ++ rest)
  pub tail_is : incomplete_tail w ≡ length back

-- A text that does not begin in the middle of a character.
abbrev pub Begins : Bytes → Type 0
Begins [] = Unit
Begins (c ∷ _) = rune_start c ≡ true

pub fits-IsNext : (c d : ℕ) → second_fits c d ≡ true → IsNext d
unfolding second_fits
fits-IsNext c d h = (ground arith, ground arith)

pub rune_start_ascii : (c : ℕ) → c < 128 → rune_start c ≡ true
unfolding rune_start
rune_start_ascii c h = ground arith

pub rune_start_lead : (c : ℕ) → 194 ≤ c → rune_start c ≡ true
unfolding rune_start
rune_start_lead c h = ground arith

pub rune_start_next : (c : ℕ) → IsNext c → rune_start c ≡ false
unfolding rune_start
rune_start_next c h = ground arith

-- What stands before a character's first byte does not matter.
drop-append :
    (n : ℕ) (p w : Bytes)
    → n ≤ length w
    → drop (length (p ++ w) - n) (p ++ w) ≡ drop (length w - n) w
drop-append n [] w h = refl
drop-append n (c ∷ p) w h = rw e (drop-append n p w h)
  where
    e : suc (length (p ++ w)) - n ≡ suc (length (p ++ w) - n)
    e = omega (arith, length-append p w, h)

-- The loop meets the first byte of the last character before what stands in front of it.
tail_loop-append :
    (left i : ℕ) (p : Bytes) (c : ℕ) (w : Bytes)
    → rune_start c ≡ true
    → i ≤ length (c ∷ w)
    → tail_loop left i (p ++ (c ∷ w)) ≡ tail_loop left i (c ∷ w)
unfolding tail_loop
tail_loop-append zero i p c w h le = refl
tail_loop-append (suc left) i p c w h le = elim (Bool-cases (i == length (c ∷ w))) [
  | inl e ↦ ground (arith, same, longer, whole (==→eq i (length (c ∷ w)) e))
  | inr e ↦
      ground (arith, same, longer, tail_loop-append left (i + 1) p c w h (ground (arith, e, le)))
]
  where
    same : drop (length (p ++ (c ∷ w)) - i) (p ++ (c ∷ w)) ≡ drop (length (c ∷ w) - i) (c ∷ w)
    same = drop-append i p (c ∷ w) le

    longer : leb i (length (p ++ (c ∷ w))) ≡ true
    longer = ground (arith, length-append p (c ∷ w), le)

    whole : i ≡ length (c ∷ w) → drop (length (c ∷ w) - i) (c ∷ w) ≡ c ∷ w
    whole e = rw zero_left refl
      where
        zero_left : length (c ∷ w) - i ≡ 0
        zero_left = omega arith

pub incomplete_tail-append :
    (p : Bytes) (c : ℕ) (w : Bytes)
    → rune_start c ≡ true
    → incomplete_tail (p ++ (c ∷ w)) ≡ incomplete_tail (c ∷ w)
unfolding incomplete_tail
incomplete_tail-append p c w h = tail_loop-append 3 1 p c w h (omega arith)

pub begins : {l : Bytes} → IsUtf8 l → (w rest : Bytes) → w ++ rest ≡ l → Begins w
begins v [] rest e = tt
begins (none_left z) (c ∷ w) rest e = absurd (ground arith)
begins (one a s z b v) (c ∷ w) rest e = rune_start_ascii c (ground arith)
begins (two a d s z b n v) (c ∷ w) rest e = rune_start_lead c (ground arith)
begins (three a d f s z b n m v) (c ∷ w) rest e = rune_start_lead c (ground arith)
begins (four a d f g s z b n m k v) (c ∷ w) rest e = rune_start_lead c (ground arith)
