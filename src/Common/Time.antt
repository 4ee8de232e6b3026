-- ===== src/Common/Time.antt =====
-- `time.Duration`: a count of nanoseconds in 64 bits, with a sign.
use Prim.Native.Nat.{ℕ, ◌+◌, ◌-◌, ◌*◌, ◌%◌, ◌^◌, ◌≤◌}
use mathlib.Core.Path.{◌≡◌}
use native.Mathlib.Omega.{arith}
use serving_agent.Common.Tests.{ℤ, pos, negsuc, ltb, if◌then◌else◌, ◌≤ℤ◌}

abbrev word : ℕ
word = 2 ^ 64

-- The number that the bits stand for.
abbrev signed : ℕ → ℤ
signed bits = if ltb bits (2 ^ 63) then pos bits else negsuc (word - bits - 1)

-- A result of 64-bit arithmetic.
abbrev wrapped : ℤ → ℤ
wrapped (pos n) = signed (n % word)
wrapped (negsuc n) = signed (word - 1 - n % word)

abbrev second : ℕ
second = 1000000000

-- `time.Duration(n) * time.Second`
unfoldable pub of_seconds : ℤ → ℤ
of_seconds (pos n) = wrapped (pos (n * second))
of_seconds (negsuc n) = wrapped (negsuc (n * second + (second - 1)))

-- The largest number of seconds that a duration holds.
abbrev pub max_seconds : ℕ
max_seconds = 9223372036

-- Within this range durations are in the order of the seconds.
pub of_seconds_mono :
    (a b : ℤ)
    → a ≤ℤ b
    → negsuc (max_seconds - 1) ≤ℤ a
    → b ≤ℤ pos max_seconds
    → of_seconds a ≤ℤ of_seconds b
unfolding of_seconds
of_seconds_mono a b le low high = ground arith

pub of_seconds-pos : (n : ℕ) → n ≤ max_seconds → of_seconds (pos n) ≡ pos (n * 1000000000)
unfolding of_seconds
of_seconds-pos n h = ground arith
