-- ===== src/Recording/Recorder/Cut.antt =====
-- `incompleteTail` on a part of a valid text: it cuts at the last boundary of a character.
use mathlib.Core.Path.{subst, ap₂}
use nokkud.Base.{
  length, take, drop, length-append, Bytes, ℕ, refl, sym, ap, true, [], append-nil, append_assoc,
  arith, ◌-◌, ◌≤◌, ◌<◌, ◌≡◌, ◌∙◌, ◌∷◌, ◌++◌,
}
use nokkud.Recording.Recorder.Utf8.{
  incomplete_tail, rune_start, second_fits, tail_loop, full_rune, rune_size,
}
use nokkud.Recording.Recorder.Boundary.{
  IsUtf8, none_left, one, two, three, four, IsNext, Cut, Begins, begins, rune_start_lead,
  rune_start_next, fits-IsNext, incomplete_tail-append,
}

-- Nothing is cut off, or all of a part that is no whole character.
Cut-nothing : (rest : Bytes) → IsUtf8 rest → Cut [] rest
unfolding incomplete_tail tail_loop
Cut-nothing rest v = record {
  front = [];
  back = [];
  parts = refl;
  front_valid = none_left refl;
  back_valid = v;
  tail_is = refl;
}

Cut-all : (w rest : Bytes) → IsUtf8 (w ++ rest) → incomplete_tail w ≡ length w → Cut w rest
Cut-all w rest v e = record {
  front = [];
  back = w;
  parts = refl;
  front_valid = none_left refl;
  back_valid = v;
  tail_is = e;
}

incomplete_tail-nil : incomplete_tail [] ≡ 0
unfolding incomplete_tail tail_loop
incomplete_tail-nil = refl

-- A whole character before a part is not cut.
Cut-after :
    (p w rest : Bytes)
    → ((s : Bytes) → IsUtf8 s → IsUtf8 (p ++ s))
    → incomplete_tail p ≡ 0
    → Begins w
    → Cut w rest
    → Cut (p ++ w) rest
Cut-after p w rest char full start v = record {
  front = p ++ v.front;
  back = v.back;
  parts = ap (λ x. p ++ x) v.parts ∙ sym (append_assoc p v.front v.back);
  front_valid = char v.front v.front_valid;
  back_valid = v.back_valid;
  tail_is = tail w start v.parts v.tail_is;
}
  where
    tail :
        (x : Bytes)
        → Begins x
        → x ≡ v.front ++ v.back
        → incomplete_tail x ≡ length v.back
        → incomplete_tail (p ++ x) ≡ length v.back
    tail [] b e n =
        ap (λ x. incomplete_tail x) (append-nil p) ∙ (full ∙ (sym incomplete_tail-nil ∙ n))
    tail (c ∷ x) b e n = incomplete_tail-append p c x b ∙ n

full_one : (c : ℕ) → c < 128 → incomplete_tail (c ∷ []) ≡ 0
unfolding incomplete_tail tail_loop rune_start full_rune rune_size second_fits
full_one c h = ground arith

full_two : (c d : ℕ) → (194 ≤ c) × (c < 224) → IsNext d → incomplete_tail (c ∷ d ∷ []) ≡ 0
unfolding incomplete_tail tail_loop rune_start full_rune rune_size second_fits
full_two c d b n = ground arith

full_three :
    (c d e : ℕ) → (224 ≤ c) × (c < 240) → IsNext d → IsNext e → incomplete_tail (c ∷ d ∷ e ∷ []) ≡ 0
unfolding incomplete_tail tail_loop rune_start full_rune rune_size second_fits
full_three c d e b n m = ground arith

full_four :
    (c d e f : ℕ) → IsNext d → IsNext e → IsNext f → incomplete_tail (c ∷ d ∷ e ∷ f ∷ []) ≡ 0
unfolding incomplete_tail tail_loop rune_start full_rune rune_size second_fits
full_four c d e f n m k = ground arith

part_one : (c : ℕ) → 194 ≤ c → c < 245 → incomplete_tail (c ∷ []) ≡ 1
unfolding incomplete_tail tail_loop rune_start full_rune rune_size second_fits
part_one c h b = ground arith

part_two : (c d : ℕ) → 224 ≤ c → c < 245 → second_fits c d ≡ true → incomplete_tail (c ∷ d ∷ []) ≡ 2
unfolding incomplete_tail tail_loop full_rune rune_size
part_two c d h b f =
    ground (arith, f, rune_start_next d (fits-IsNext c d f), rune_start_lead c (omega arith))

part_three :
    (c d e : ℕ)
    → 240 ≤ c
    → c < 245
    → second_fits c d ≡ true
    → IsNext e
    → incomplete_tail (c ∷ d ∷ e ∷ []) ≡ 3
unfolding incomplete_tail tail_loop full_rune rune_size
part_three c d e h b f n = ground (
  arith,
  f,
  rune_start_next d (fits-IsNext c d f),
  rune_start_next e n,
  rune_start_lead c (omega arith),
)

-- A part of a valid text: `incompleteTail` gives the length of what it has of its last character, if
-- that is not whole.
pub Cut-part : {l : Bytes} → IsUtf8 l → (w rest : Bytes) → w ++ rest ≡ l → Cut w rest
Cut-part v [] rest e = Cut-nothing rest (subst IsUtf8 (sym e) v)
Cut-part (none_left z) (x ∷ w) rest e = absurd (ground arith)
Cut-part (one c s z b v) (x ∷ w) rest e =
    let same : x ≡ c = ground arith in
    let more : w ++ rest ≡ s = ground arith in
    let ascii : x < 128 = omega arith in
    Cut-after (x ∷ []) w rest (λ t u. one x t refl ascii u) (full_one x ascii)
      (begins v w rest more) (Cut-part v w rest more)
Cut-part (two c d s z b n v) (x ∷ []) rest e =
    let same : x ≡ c = ground arith in
    Cut-all (x ∷ []) rest (subst IsUtf8 (sym e) (two c d s z b n v))
      (part_one x (omega arith) (omega arith))
Cut-part (two c d s z b n v) (x ∷ y ∷ w) rest e =
    let same : x ≡ c = ground arith in
    let next : y ≡ d = ground arith in
    let more : w ++ rest ≡ s = ground arith in
    let lead : (194 ≤ x) × (x < 224) = (omega arith, omega arith) in
    let follow : IsNext y = (omega arith, omega arith) in
    Cut-after (x ∷ y ∷ []) w rest (λ t u. two x y t refl lead follow u) (full_two x y lead follow)
      (begins v w rest more) (Cut-part v w rest more)
Cut-part (three c d f s z b n m v) (x ∷ []) rest e =
    let same : x ≡ c = ground arith in
    Cut-all (x ∷ []) rest (subst IsUtf8 (sym e) (three c d f s z b n m v))
      (part_one x (omega arith) (omega arith))
Cut-part (three c d f s z b n m v) (x ∷ y ∷ []) rest e =
    let same : x ≡ c = ground arith in
    let next : y ≡ d = ground arith in
    Cut-all (x ∷ y ∷ []) rest (subst IsUtf8 (sym e) (three c d f s z b n m v))
      (part_two x y (omega arith) (omega arith) (rw (same, next) n))
Cut-part (three c d f s z b n m v) (x ∷ y ∷ q ∷ w) rest e =
    let same : x ≡ c = ground arith in
    let next : y ≡ d = ground arith in
    let third : q ≡ f = ground arith in
    let more : w ++ rest ≡ s = ground arith in
    let lead : (224 ≤ x) × (x < 240) = (omega arith, omega arith) in
    let fits : second_fits x y ≡ true = rw (same, next) n in
    let follow : IsNext q = (omega arith, omega arith) in
    Cut-after (x ∷ y ∷ q ∷ []) w rest (λ t u. three x y q t refl lead fits follow u)
      (full_three x y q lead (fits-IsNext x y fits) follow) (begins v w rest more)
      (Cut-part v w rest more)
Cut-part (four c d f g s z b n m k v) (x ∷ []) rest e =
    let same : x ≡ c = ground arith in
    Cut-all (x ∷ []) rest (subst IsUtf8 (sym e) (four c d f g s z b n m k v))
      (part_one x (omega arith) (omega arith))
Cut-part (four c d f g s z b n m k v) (x ∷ y ∷ []) rest e =
    let same : x ≡ c = ground arith in
    let next : y ≡ d = ground arith in
    Cut-all (x ∷ y ∷ []) rest (subst IsUtf8 (sym e) (four c d f g s z b n m k v))
      (part_two x y (omega arith) (omega arith) (rw (same, next) n))
Cut-part (four c d f g s z b n m k v) (x ∷ y ∷ q ∷ []) rest e =
    let same : x ≡ c = ground arith in
    let next : y ≡ d = ground arith in
    let third : q ≡ f = ground arith in
    Cut-all (x ∷ y ∷ q ∷ []) rest (subst IsUtf8 (sym e) (four c d f g s z b n m k v))
      (part_three x y q (omega arith) (omega arith) (rw (same, next) n) (omega arith, omega arith))
Cut-part (four c d f g s z b n m k v) (x ∷ y ∷ q ∷ o ∷ w) rest e =
    let same : x ≡ c = ground arith in
    let next : y ≡ d = ground arith in
    let third : q ≡ f = ground arith in
    let fourth : o ≡ g = ground arith in
    let more : w ++ rest ≡ s = ground arith in
    let lead : (240 ≤ x) × (x < 245) = (omega arith, omega arith) in
    let fits : second_fits x y ≡ true = rw (same, next) n in
    let follow : IsNext q = (omega arith, omega arith) in
    let last : IsNext o = (omega arith, omega arith) in
    Cut-after (x ∷ y ∷ q ∷ o ∷ []) w rest (λ t u. four x y q o t refl lead fits follow last u)
      (full_four x y q o (fits-IsNext x y fits) follow last) (begins v w rest more)
      (Cut-part v w rest more)

take-front : (a b : Bytes) → take (length (a ++ b) - length b) (a ++ b) ≡ a
take-front a b = rw count (take-length a b)
  where
    take-length : (a b : Bytes) → take (length a) (a ++ b) ≡ a
    take-length [] b = refl
    take-length (c ∷ a) b = ap (λ l. c ∷ l) (take-length a b)

    count : length (a ++ b) - length b ≡ length a
    count = omega (arith, length-append a b)

drop-back : (a b : Bytes) → drop (length (a ++ b) - length b) (a ++ b) ≡ b
drop-back a b = rw count (drop-length a b)
  where
    drop-length : (a b : Bytes) → drop (length a) (a ++ b) ≡ b
    drop-length [] b = refl
    drop-length (c ∷ a) b = drop-length a b

    count : length (a ++ b) - length b ≡ length a
    count = omega (arith, length-append a b)

-- The cut that a recorder makes in a part `w` of a valid text: what it writes is valid, and so is
-- what waits with the rest behind it.
pub cut-IsUtf8 :
    (w rest : Bytes)
    → IsUtf8 (w ++ rest)
    → IsUtf8 (take (length w - incomplete_tail w) w)
      × IsUtf8 (drop (length w - incomplete_tail w) w ++ rest)
cut-IsUtf8 w rest v = (
  subst IsUtf8 (sym (ap₂ take_at c.parts c.tail_is ∙ take-front c.front c.back)) c.front_valid,
  subst (λ l. IsUtf8 (l ++ rest)) (sym (ap₂ drop_at c.parts c.tail_is ∙ drop-back c.front c.back))
      c.back_valid,
)
  where
    c : Cut w rest
    c = Cut-part v w rest refl

    take_at : Bytes → ℕ → Bytes
    take_at l n = take (length l - n) l

    drop_at : Bytes → ℕ → Bytes
    drop_at l n = drop (length l - n) l
