-- ===== src/Hostcerts/Window.antt =====
-- The time in which a host certificate needs no renewal.
use native.Mathlib.Nat.{div-mul-le_self}
use mathlib.Core.Path.{ap₂}
use nokkud.Base.{
  ltb, leb, Bool-cases, and_split, Bytes, ℕ, zero, suc, min, refl, sym, ap, inl, inr, true, false,
  arith, ◌+◌, ◌-◌, ◌*◌, ◌/◌, ◌^◌, ◌≤◌, ◌<◌, ◌≡◌, ◌∙◌, ◌↔◌, ◌&&◌, ◌==◌, nat_eq, bytes_eq,
}
use nokkud.Hostcerts.{renewal_deadline, cert_time_infinity, is_for, is_valid}
use nokkud.Certificate.{Certificate}
use nokkud.Hostcerts.Clock.{
  epoch, half, round_even, second, to_float64, uint64_to_unix_time, ulp, unix, half_way, max_int64,
  sub_time,
}

ulp-bound : (fuel u n : ℕ) → u ≤ n → ulp fuel u n ≤ n
unfolding ulp
ulp-bound zero u n h = h
ulp-bound (suc fuel) u n h = elim (Bool-cases (ltb n (2 ^ 53 * u))) [
  | inl e ↦ ground (arith, h)
  | inr e ↦ let next : 2 * u ≤ n = ground arith in ground (arith, ulp-bound fuel (2 * u) n next)
]

ulp-small : (fuel u n : ℕ) → n < 2 ^ 53 * u → ulp fuel u n ≡ u
unfolding ulp
ulp-small zero u n h = refl
ulp-small (suc fuel) u n h = ground (arith, h)

round_even-bound : (u n : ℕ) → u ≤ n → round_even u n ≤ 2 * n
unfolding round_even
round_even-bound u n h = ground (arith, h, div-mul-le_self n u)

-- Half of a duration is at most the duration.
half-bound : (n : ℕ) → half n ≤ n
unfolding half to_float64 round_even ulp
half-bound zero = omega arith
half-bound (suc n) =
    omega
      (arith, round_even-bound (ulp 11 1 (suc n)) (suc n) (ulp-bound 11 1 (suc n) (omega arith)))

round_even-one : (n : ℕ) → round_even 1 n ≡ n
unfolding round_even
round_even-one n = ground arith

-- Half of a duration below 2 ^ 53 nanoseconds is exact.
half-exact : (n : ℕ) → n < 2 ^ 53 → half n ≡ n / 2
unfolding half to_float64
half-exact n h =
    ap (λ m. m / 2)
      (ap (λ u. round_even u n) (ulp-small 11 1 n (omega (arith, h))) ∙ round_even-one n)

-- The times of a certificate that the clock can tell apart.
abbrev pub InRange : Certificate → Type 0
InRange c = (c.valid_after ≤ c.valid_before) × (c.valid_before + epoch < 2 ^ 64)

time_of : (n : ℕ) → n + epoch < 2 ^ 64 → uint64_to_unix_time n ≡ (n + epoch) * second
unfolding uint64_to_unix_time unix
time_of n h = ground (arith, h)

abbrev pub time : ℕ → ℕ
time n = (n + epoch) * second

half_way-ordered : (a b : ℕ) → a ≤ b → half_way a b ≡ b - half (min (b - a) max_int64)
unfolding half_way sub_time
half_way-ordered a b h = ground (arith, h, half-bound (min (b - a) max_int64))

pub deadline_of :
    (c : Certificate)
    → InRange c
    → renewal_deadline c
      ≡ time c.valid_before - half (min ((c.valid_before - c.valid_after) * second) max_int64)
unfolding renewal_deadline
deadline_of c (ordered, range) =
    ap₂ half_way (time_of c.valid_after (omega arith)) (time_of c.valid_before range)
    ∙ (half_way-ordered (time c.valid_after) (time c.valid_before) (omega arith)
        ∙ ap (λ d. time c.valid_before - half (min d max_int64)) (omega arith))

is_valid-range :
    (now : ℕ) (c : Certificate) (target : Bytes)
    → InRange c
    → is_valid now c target ≡ (
        is_for target c.valid_principals
        && (leb (time c.valid_after) now && ltb now (renewal_deadline c)))
unfolding is_valid
is_valid-range now c target (ordered, range) =
    ground (arith, time_of c.valid_after (omega arith), infinite)
  where
    infinite : (c.valid_before == cert_time_infinity) ≡ false
    infinite = ground arith

valid-split :
    (now : ℕ) (c : Certificate) (target : Bytes)
    → InRange c
    → (is_valid now c target ≡ true) ↔ (
        (is_for target c.valid_principals ≡ true)
        × ((time c.valid_after ≤ now) × (now < renewal_deadline c)))
valid-split now c target r = (
  λ e.
      let split = and_split _ _ (sym (is_valid-range now c target r) ∙ e) in
      (split.0, ground (arith, split.1)),
  λ h. is_valid-range now c target r ∙ ground (arith, h.0, h.1),
)

-- A host certificate that needs no renewal has started and is not over. The condition: its times
-- are in order, and the clock can hold them.
pub valid-IsRunning :
    (now : ℕ) (c : Certificate) (target : Bytes)
    → InRange c
    → is_valid now c target ≡ true
    → (time c.valid_after ≤ now) × (now < time c.valid_before)
valid-IsRunning now c target r e =
    let (_, (started, early)) = (valid-split now c target r).0 e in
    (started, omega (arith, early, deadline_of c r))

-- For a certificate whose times are in order, whose end a time.Time can hold, and of less than
-- 2 ^ 53 nanoseconds, which are 104 days: `isValid` holds exactly if the certificate is for the
-- target alone or there is no target, has started, and less than half of its time is over.
pub valid_iff :
    (now : ℕ) (c : Certificate) (target : Bytes)
    → InRange c
    → (c.valid_before - c.valid_after) * second < 2 ^ 53
    → (is_valid now c target ≡ true) ↔ (
        (is_for target c.valid_principals ≡ true)
        × ((time c.valid_after ≤ now)
            × (2 * (now - time c.valid_after) < (c.valid_before - c.valid_after) * second)))
valid_iff now c target r short = (
  λ e.
      let (named, (started, early)) = (valid-split now c target r).0 e in
      (named, (started, omega (arith, early, r.0, short, middle))),
  λ h.
      (valid-split now c target r).1
        (h.0, (h.1.0, omega (arith, h.1.0, h.1.1, r.0, short, middle))),
)
  where
    length_ns : ℕ
    length_ns = (c.valid_before - c.valid_after) * second

    middle : renewal_deadline c ≡ time c.valid_before - length_ns / 2
    middle =
        deadline_of c r
        ∙ (ap (λ d. time c.valid_before - half d) (omega (arith, short))
            ∙ ap (λ d. time c.valid_before - d) (half-exact length_ns short))
