-- ===== src/Base/Words.antt =====
-- Go's fixed-width integers. An `int32` is its bit pattern, a number below 2 ^ 32, so that the
-- conversion `uint32(x)` of an `int32` is the identity; -1 is the pattern of all ones.
use Prim.Native.Nat.{ℕ, ◌+◌, ◌-◌, ◌*◌, ◌%◌, ◌<◌, ◌≤◌}
use mathlib.Core.Bool.{Bool}
use mathlib.Core.Path.{◌≡◌}
use native.Mathlib.Omega.{arith}
use iracelog_service_manager.Base.Tests.{ltb, if◌then◌else◌}

abbrev pub word : ℕ
word = 4294967296

abbrev pub sign_bit : ℕ
sign_bit = 2147483648

-- a + b and a - b on `int32`, which wrap around.
abbrev pub add32 : ℕ → ℕ → ℕ
add32 a b = (a + b) % word

abbrev pub sub32 : ℕ → ℕ → ℕ
sub32 a b = (a + (word - b % word)) % word

-- The order of signed numbers: flipping the sign bit makes it the order of the patterns.
abbrev pub offset : ℕ → ℕ
offset a = (a + sign_bit) % word

abbrev pub lt32 : ℕ → ℕ → Bool
lt32 a b = ltb (offset a) (offset b)

abbrev pub minus_one : ℕ
minus_one = 4294967295

-- `int64`, as bit patterns too: a `time.Duration` in nanoseconds.
abbrev pub long_word : ℕ
long_word = 18446744073709551616

abbrev pub long_sign : ℕ
long_sign = 9223372036854775808

abbrev pub add64 : ℕ → ℕ → ℕ
add64 a b = (a + b) % long_word

abbrev pub sub64 : ℕ → ℕ → ℕ
sub64 a b = (a + (long_word - b % long_word)) % long_word

abbrev pub mul64 : ℕ → ℕ → ℕ
mul64 a b = a * b % long_word

abbrev pub lt64 : ℕ → ℕ → Bool
lt64 a b = ltb ((a + long_sign) % long_word) ((b + long_sign) % long_word)

-- The conversion of an `int32` to an `int64`.
abbrev pub widen : ℕ → ℕ
widen n = if ltb n sign_bit then n else n + (long_word - word)

-- Non-negative numbers that stay below the sign bit do not wrap around.
pub add64-small : (a b : ℕ) → a + b < long_sign → add64 a b ≡ a + b
add64-small a b h = omega arith

pub sub64-small : (a b : ℕ) → b ≤ a → a < long_sign → sub64 a b ≡ a - b
sub64-small a b h k = omega arith

pub mul64-small : (a b : ℕ) → a * b < long_sign → mul64 a b ≡ a * b
mul64-small a b h = omega arith

pub widen-small : (a : ℕ) → a < sign_bit → widen a ≡ a
widen-small a h = ground arith

pub lt64-small : (a b : ℕ) → a < long_sign → b < long_sign → lt64 a b ≡ ltb a b
lt64-small a b h k = ground arith

-- `min` on `int`
abbrev pub min64 : ℕ → ℕ → ℕ
min64 a b = if lt64 b a then b else a
