-- ===== src/GoTime.antt =====
-- time.Time and time.Duration, as the program uses them. A Time counts nanoseconds from the zero
-- Time (January 1, year 1), so `IsZero` is the test for 0; a Duration is an int64 of nanoseconds,
-- whose products wrap and whose differences of times saturate.
use arex.Prelude.{
  ℕ, suc, ◌+◌, ◌-◌, ◌*◌, ◌%◌, ◌^◌, ◌≤◌, ◌<◌, ◌≡◌, Bool, arith, ltb, ◌==◌, if◌then◌else◌,
}
use arex.Prelude.Int.{ℤ, pos, negsuc, sub_ℕ, pos_part, neg_part}

abbrev pub Time : Type 0
Time = ℕ

abbrev pub Duration : Type 0
Duration = ℤ

abbrev pub second : ℕ
second = 1000000000

abbrev pub minute : ℕ
minute = 60 * second

-- The first number that an int64 cannot hold.
abbrev pub int64_half : ℕ
int64_half = 2 ^ 63

abbrev pub int64_mod : ℕ
int64_mod = 2 ^ 64

unfoldable pub wrap64 : ℤ → ℤ
wrap64 (pos n) =
    let m = n % int64_mod in if ltb m int64_half then pos m else negsuc (int64_mod - m - 1)
wrap64 (negsuc n) =
    let m = n % int64_mod in if ltb m int64_half then negsuc m else pos (int64_mod - m - 1)

unfoldable pub saturate64 : ℤ → ℤ
saturate64 (pos n) = if ltb n int64_half then pos n else pos (int64_half - 1)
saturate64 (negsuc n) = if ltb n int64_half then negsuc n else negsuc (int64_half - 1)

-- `k * d` for a small constant k.
unfoldable pub times : ℕ → Duration → Duration
unfolding wrap64
times k (pos n) = wrap64 (pos (k * n))
times k (negsuc n) = wrap64 (sub_ℕ 0 (k * suc n))

-- `a + b` of two durations.
unfoldable pub add_duration : Duration → Duration → Duration
unfolding wrap64
add_duration a b = wrap64 (sub_ℕ (pos_part a + pos_part b) (neg_part a + neg_part b))

-- `a.Sub(b)`
unfoldable pub since : Time → Time → Duration
unfolding saturate64
since a b = saturate64 (sub_ℕ a b)

-- `t.IsZero()`
abbrev pub is_zero_time : Time → Bool
is_zero_time t = t == 0

-- Within 292 years a product by a small constant is exact.
pub times-pos : (k n : ℕ) → k * n < int64_half → times k (pos n) ≡ pos (k * n)
unfolding times
times-pos k n h = ground arith

-- Within 292 years a difference is exact.
pub since-sub : (a b : ℕ) → b ≤ a → a - b < int64_half → since a b ≡ pos (a - b)
unfolding since
since-sub a b h k = ground arith
