-- ===== src/Storage/Time.antt =====
-- include/kvstore/storage/clock.hpp: std::chrono::steady_clock's time points and what store.cpp does
-- with them. A time point is a signed 64-bit count of nanoseconds, kept here as its distance from the
-- least one, `count + 2 ^ 63`, so that the order of time points is the order of numbers; arithmetic
-- on the counts wraps around at 64 bits.
use cpp_kv_store.Base.{
  ℕ, suc, ◌+◌, ◌-◌, ◌*◌, ◌/◌, ◌%◌, ◌^◌, ◌≤◌, ◌<◌, ltb, if◌then◌else◌, ◌≡◌, arith,
}
use cpp_kv_store.Base.Int.{ℤ, pos, negsuc}

abbrev pub TimePoint : Type 0
TimePoint = ℕ

-- The number of time points, and of nanosecond counts.
abbrev pub word : ℕ
word = 2 ^ 64

abbrev pub nanos_per_second : ℕ
nanos_per_second = 1000000000

-- `now + seconds`
unfoldable pub add_seconds : TimePoint → ℤ → TimePoint
add_seconds now (pos n) = (now + n * nanos_per_second) % word
add_seconds now (negsuc n) = (now + word - suc n * nanos_per_second % word) % word

-- Minus `n`, as an integer.
unfoldable pub negative : ℕ → ℤ
negative n = if ltb 0 n then negsuc (n - 1) else pos 0

-- std::chrono::duration_cast<std::chrono::seconds>, which truncates towards zero, of a difference
-- given by its residue modulo 2 ^ 64
unfoldable pub seconds_of : ℕ → ℤ
unfolding negative
seconds_of difference =
    if ltb difference (2 ^ 63)
    then pos (difference / nanos_per_second)
    else negative ((word - difference) / nanos_per_second)

-- The whole seconds of `deadline - now`.
unfoldable pub remaining_seconds : TimePoint → TimePoint → ℤ
unfolding seconds_of
remaining_seconds deadline now = seconds_of ((deadline + word - now) % word)

-- Without a wrap-around a deadline is that many seconds ahead.
pub add_seconds-exact :
    (now n : ℕ)
    → now + n * nanos_per_second < word
    → add_seconds now (pos n) ≡ now + n * nanos_per_second
unfolding add_seconds
add_seconds-exact now n h = omega arith

-- What is left until a later time point less than 2 ^ 63 nanoseconds ahead, rounded down.
pub remaining_seconds-exact :
    (deadline now : ℕ)
    → now ≤ deadline
    → deadline - now < 2 ^ 63
    → remaining_seconds deadline now ≡ pos ((deadline - now) / nanos_per_second)
unfolding remaining_seconds
remaining_seconds-exact deadline now h k = ground arith
