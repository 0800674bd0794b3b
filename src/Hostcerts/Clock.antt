-- ===== src/Hostcerts/Clock.antt =====
-- The times of internal/hostcerts/certs.go. A `time.Time` counts nanoseconds from the first second
-- that its 64 bits reach; a negative `time.Duration` is a subtraction.
use nokkud.Base.{
  ltb, leb, ℕ, zero, suc, min, ◌+◌, ◌-◌, ◌*◌, ◌/◌, ◌%◌, ◌^◌, ◌==◌, if◌then◌else◌, nat_eq, bytes_eq,
}

abbrev pub second : ℕ
second = 1000000000

abbrev pub max_int64 : ℕ
max_int64 = 2 ^ 63 - 1

-- The seconds from the first second of a `time.Time` to 1970.
abbrev pub epoch : ℕ
epoch = 62135596800 + 2 ^ 63

-- `time.Unix(n, 0)`: the second wraps around in 64 bits.
unfoldable pub unix : ℕ → ℕ
unix n = ((n + epoch) % 2 ^ 64) * second

-- `uint64ToUnixTime`.
unfoldable pub uint64_to_unix_time : ℕ → ℕ
uint64_to_unix_time n = if ltb max_int64 n then unix max_int64 else unix n

-- The unit in the last place of a `float64` that holds `n`; `u` is the unit so far.
unfoldable pub ulp : ℕ → ℕ → ℕ → ℕ
ulp zero u n = u
ulp (suc fuel) u n = let next = ulp fuel (2 * u) n in if ltb n (2 ^ 53 * u) then u else next

-- Rounding to a multiple of `u`, ties to even.
unfoldable pub round_even : ℕ → ℕ → ℕ
round_even u n =
    if ltb (2 * (n % u)) u
    then n / u * u
    else if ltb u (2 * (n % u))
    then n / u * u + u
    else if n / u % 2 == 0
    then n / u * u
    else n / u * u + u

-- `float64(n)`, for at most 64 bits.
unfoldable pub to_float64 : ℕ → ℕ
to_float64 n = round_even (ulp 11 1 n) n

-- `time.Duration(float64(n) * renewFraction)`.
unfoldable pub half : ℕ → ℕ
half n = to_float64 n / 2

-- `Add` of a duration and of a negative one: the second stops at the ends of its range, and the
-- first second of all counts as one before it.
unfoldable pub add_time : ℕ → ℕ → ℕ
add_time t d =
    if ltb (t + d) (2 ^ 64 * second) then t + d else (2 ^ 64 - 1) * second + (t + d) % second

unfoldable pub sub_time : ℕ → ℕ → ℕ
sub_time t d = if leb d t then t - d else second + (t % second + (second - d % second)) % second

-- `renewalDeadline`, of the times `validAfter` and `validBefore`. `Sub` stops at the ends of a
-- duration's range.
unfoldable pub half_way : ℕ → ℕ → ℕ
half_way valid_after valid_before =
    if leb valid_after valid_before
    then sub_time valid_before (half (min (valid_before - valid_after) max_int64))
    else add_time valid_before (half (min (valid_after - valid_before) (2 ^ 63)))
