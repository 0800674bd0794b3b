-- ===== src/Recording/Recorder/Utf8.antt =====
-- internal/recording/recorder.go: where a chunk of terminal data ends inside a character.
use nokkud.Base.{
  ltb, leb, length, drop, Bytes, ℕ, zero, suc, refl, inr, Bool, false, not, [], arith, ◌+◌, ◌-◌,
  ◌≤◌, ◌<◌, ◌≡◌, ◌⊎◌, ◌&&◌, ◌||◌, ◌∷◌, ◌==◌, if◌then◌else◌, nat_eq, bytes_eq,
}

-- `utf8.RuneStart`.
unfoldable pub rune_start : ℕ → Bool
rune_start c = not (leb 128 c && leb c 191)

-- The length that the first byte of a character states; a byte that starts none has 1.
unfoldable pub rune_size : ℕ → ℕ
rune_size c =
    if ltb c 194
    then 1
    else if ltb c 224
    then 2
    else if ltb c 240
    then 3
    else if ltb c 245
    then 4
    else 1

-- Whether the second byte may follow the first.
unfoldable pub second_fits : ℕ → ℕ → Bool
second_fits c d =
    let low = if c == 224 then 160 else if c == 240 then 144 else 128 in
    let high = if c == 237 then 159 else if c == 244 then 143 else 191 in leb low d && leb d high

-- `utf8.FullRune`.
unfoldable pub full_rune : Bytes → Bool
unfolding rune_size second_fits
full_rune [] = false
full_rune (c ∷ []) = leb (rune_size c) 1
full_rune (c ∷ d ∷ []) = leb (rune_size c) 2 || not (second_fits c d)
full_rune (c ∷ d ∷ e ∷ rest) =
    leb (rune_size c) (3 + length rest) || (not (second_fits c d) || not (leb 128 e && leb e 191))

-- The loop of `incompleteTail` from `i`, with `left` values of `i` to go.
unfoldable pub tail_loop : ℕ → ℕ → Bytes → ℕ
unfolding rune_start full_rune
tail_loop zero i p = 0
tail_loop (suc left) i p =
    let next = tail_loop left (i + 1) p in
    if leb i (length p)
    then elim (drop (length p - i) p) [
      | [] ↦ 0
      | (c ∷ cs) ↦ if rune_start c then if full_rune (c ∷ cs) then 0 else i else next
    ]
    else 0

-- `incompleteTail`; `utf8.UTFMax` is 4.
unfoldable pub incomplete_tail : Bytes → ℕ
unfolding tail_loop
incomplete_tail p = tail_loop 3 1 p

tail_loop-bound :
    (left i : ℕ) (p : Bytes) → tail_loop left i p < i + left ⊎ (tail_loop left i p ≡ 0)
unfolding tail_loop
tail_loop-bound zero i p = inr refl
tail_loop-bound (suc left) i p = elim (drop (length p - i) p) [
  | [] ↦ ground (arith, tail_loop-bound left (i + 1) p)
  | (c ∷ cs) ↦ ground (arith, tail_loop-bound left (i + 1) p)
]

pub incomplete_tail-bound : (p : Bytes) → incomplete_tail p ≤ 3
unfolding incomplete_tail
incomplete_tail-bound p = ground (arith, tail_loop-bound 3 1 p)
