-- ===== src/Common/Int64.antt =====
-- Go's `int`, `int64` and `time.Duration` as 64-bit patterns: a value below 2 ^ 63 is itself, the
-- others stand for the negative numbers. `int32` likewise.
use go_ai_proxy.Common.{ℕ, ◌+◌, ◌-◌, ◌*◌, ◌%◌, ◌<◌, ◌≡◌, Bool, arith, ltb, leb, if◌then◌else◌}

abbrev pub modulus : ℕ
modulus = 18446744073709551616

abbrev pub half : ℕ
half = 9223372036854775808

abbrev pub max_int : ℕ
max_int = 9223372036854775807

pub IsInt64 : ℕ → Type 0
IsInt64 n = n < modulus

-- The order of the signed values is the order of the patterns moved by half the range.
abbrev pub biased : ℕ → ℕ
biased n = (n + half) % modulus

abbrev pub lt_int : ℕ → ℕ → Bool
lt_int a b = ltb (biased a) (biased b)

abbrev pub le_int : ℕ → ℕ → Bool
le_int a b = leb (biased a) (biased b)

abbrev pub is_positive : ℕ → Bool
is_positive n = lt_int 0 n

abbrev pub add_int : ℕ → ℕ → ℕ
add_int a b = (a + b) % modulus

abbrev pub mul_int : ℕ → ℕ → ℕ
mul_int a b = (a * b) % modulus

pub lt_int_small : (a b : ℕ) → a < half → b < half → lt_int a b ≡ ltb a b
lt_int_small a b p q = ground arith

-- `atomic.Int32`
abbrev pub modulus32 : ℕ
modulus32 = 4294967296

abbrev pub half32 : ℕ
half32 = 2147483648

abbrev pub inc32 : ℕ → ℕ
inc32 n = (n + 1) % modulus32

abbrev pub dec32 : ℕ → ℕ
dec32 n = (n + 4294967295) % modulus32

-- `int(n)` of an int32 extends the sign.
abbrev pub of_int32 : ℕ → ℕ
of_int32 n = if ltb n half32 then n else n + (modulus - modulus32)
