-- ===== src/Provider/Errors.antt =====
-- internal/provider/ratelimit.go and upstream_error.go: the errors that callers tell apart, and the
-- reading of a Retry-After header. Durations are nanoseconds in 64 bits.
use go_ai_proxy.Common.{
  ℕ, ◌+◌, ◌-◌, ◌*◌, ◌≤◌, ◌<◌, ◌⊎◌, ◌≡◌, refl, true, false, ◌&&◌, Option, none, some, [], ◌∷◌, arith,
  leb, ◌==◌, is_nil, if◌then◌else◌, Option-cases, inl, inr,
}
use go_ai_proxy.Common.Text.{Text, trim_space}
use go_ai_proxy.Common.Int64.{modulus, half, max_int, mul_int, is_positive}

-- What `errors.As` and `errors.Is` find in the chain of an error.
pub data ProviderError : Type 0 where
  rate_limit : ℕ → ProviderError
  upstream : ℕ → Text → ProviderError
  queue_full : ProviderError
  other : Text → ProviderError

abbrev pub second : ℕ
second = 1000000000

abbrev pub default_retry_after : ℕ
default_retry_after = 60000000000

digits : ℕ → Text → Option ℕ
digits n [] = some n
digits n (c ∷ s) =
    let rest = digits (n * 10 + (c - b'0')) s in if leb b'0' c && leb c b'9' then rest else none

-- A number of at least one digit, at most `limit`.
number : ℕ → Text → Option ℕ
unfolding digits
number limit [] = none
number limit (c ∷ s) = elim (digits 0 (c ∷ s)) [
  | none ↦ none
  | some n ↦ if leb n limit then some n else none
]

abbrev negate : Option ℕ → Option ℕ
negate none = none
negate (some n) = some (if n == 0 then 0 else modulus - n)

-- strconv.Atoi
unfoldable pub atoi : Text → Option ℕ
unfolding number
atoi [] = none
atoi (c ∷ s) =
    if c == b'-'
    then negate (number half s)
    else if c == b'+'
    then number max_int s
    else number max_int (c ∷ s)

abbrev or_date : Option ℕ → ℕ
or_date none = default_retry_after
or_date (some d) = if is_positive d then d else default_retry_after

-- ParseRetryAfter; `until` is what time.Until gives for the header read as an HTTP date.
unfoldable pub parse_retry_after : (Text → Option ℕ) → Text → ℕ
parse_retry_after until header =
    if is_nil header then default_retry_after else (elim (atoi (trim_space header)) [
      | none ↦ or_date (until header)
      | some n ↦ if is_positive n then mul_int n second else or_date (until header)
    ])

-- A header that is no positive number of seconds, or is none at all, gives a positive wait: the time
-- to the date that it names, or 60 s.
pub parse_retry_after_date :
    (until : Text → Option ℕ) (header : Text)
    → ((n : ℕ) → atoi (trim_space header) ≡ some n → is_positive n ≡ false)
    → is_positive (parse_retry_after until header) ≡ true
unfolding parse_retry_after
parse_retry_after_date until header h = elim (Option-cases (atoi (trim_space header))) [
  | inl e ↦ ground arith
  | inr (n, e) ↦ ground (arith, h n)
]

atoi_nil : atoi (trim_space []) ≡ none
unfolding atoi trim_space
atoi_nil = refl

-- A header of n seconds, n at most 18446744073, either has n at most 9223372036 and gives n * 10^9 ns,
-- or gives a product with its sign bit set, which is no positive duration.
pub parse_retry_after_seconds :
    (until : Text → Option ℕ) (header : Text) (n : ℕ)
    → atoi (trim_space header) ≡ some n
    → 0 < n
    → n ≤ 18446744073
    → ((n ≤ 9223372036) × (parse_retry_after until header ≡ n * second))
      ⊎ ((9223372036 < n) × (is_positive (parse_retry_after until header) ≡ false))
unfolding parse_retry_after
parse_retry_after_seconds until [] n h p q = cc (atoi_nil, h)
parse_retry_after_seconds until (c ∷ s) n h p q = rw h (ground arith)
