-- ===== src/Base/Words.antt =====
-- Go's fixed-width integers by their two's complement bit patterns, and `time.Duration` (int64).
use Prim.Native.Nat.{ℕ, ◌+◌, ◌-◌, ◌*◌, ◌%◌, ◌^◌}
use mathlib.Core.Bool.{Bool}
use periapsis.Base.Tests.{ltb}

-- An int32, below 2 ^ 32.
abbrev pub Int32 : Type 0
Int32 = ℕ

-- `n++` on an int32.
abbrev pub incr32 : Int32 → Int32
incr32 n = (n + 1) % 2 ^ 32

-- A time.Duration: nanoseconds as an int64, below 2 ^ 64.
abbrev pub Duration : Type 0
Duration = ℕ

-- A time.Time in nanoseconds; 0 is the zero time.
abbrev pub Time : Type 0
Time = ℕ

-- `a < b` on int64.
abbrev pub slt64 : ℕ → ℕ → Bool
slt64 a b = ltb ((a + 2 ^ 63) % 2 ^ 64) ((b + 2 ^ 63) % 2 ^ 64)

-- `d * 2` on an int64.
abbrev pub double64 : Duration → Duration
double64 d = d * 2 % 2 ^ 64

abbrev pub second : Duration
second = 1000000000

abbrev pub minute : Duration
minute = 60 * second

-- The readings of the clock that one call makes, in order: `time.Now()` number n is `clock n`.
abbrev pub Clock : Type 0
Clock = ℕ → Time

-- What is left of the readings after the first k.
abbrev pub after : ℕ → Clock → Clock
after k clock n = clock (k + n)

-- An int64, below 2 ^ 64.
abbrev pub Int64 : Type 0
Int64 = ℕ

-- `a + b` and `a - b` on int64.
abbrev pub add64 : Int64 → Int64 → Int64
add64 a b = (a + b) % 2 ^ 64

abbrev pub sub64 : Int64 → Int64 → Int64
sub64 a b = (a + (2 ^ 64 - b % 2 ^ 64)) % 2 ^ 64

-- `n--` on an int32.
abbrev pub decr32 : Int32 → Int32
decr32 n = (n + (2 ^ 32 - 1)) % 2 ^ 32
