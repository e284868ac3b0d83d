-- ===== src/Bandwidth.antt =====
-- bandwidth.go: the time that a unit takes on a throttled link.
use native.Mathlib.Nat.{le-div_iff_mul-le}
use netchaos.Base.{
  ℕ, ◌+◌, ◌*◌, ◌/◌, ◌-◌, ◌^◌, ◌≤◌, ◌<◌, ◌≡◌, arith, ltb, leb, if◌then◌else◌, min, Option, none,
  some, ◌>>=◌,
}
use netchaos.Rand.{word, mul_hi, mul_lo}

-- time.Second in nanoseconds.
abbrev pub second : ℕ
second = 1000000000

-- math.MaxInt64, the largest time.Duration.
abbrev pub max_int64 : ℕ
max_int64 = 2 ^ 63 - 1

-- The quotient of bits.Div64: the 128-bit number hi * 2 ^ 64 + lo by y. Div64 panics if y is not
-- above hi, and this is `none`.
unfoldable pub div64 : ℕ → ℕ → ℕ → Option ℕ
div64 hi lo y = if leb y hi then none else some ((hi * word + lo) / y)

unfoldable pub serialization_delay : ℕ → ℕ → Option ℕ
unfolding div64 mul_hi mul_lo
serialization_delay size bytes_per_second =
    let hi = mul_hi size second in
    let lo = mul_lo size second in
    if leb bytes_per_second hi
    then some max_int64
    else (div64 hi lo bytes_per_second >>= λ q. some (if ltb max_int64 q then max_int64 else q))

product_halves : (a b : ℕ) → mul_hi a b * word + mul_lo a b ≡ a * b
unfolding mul_hi mul_lo
product_halves a b = omega arith

-- Where the high half reaches the divisor the quotient does not fit in 64 bits.
too_long : (size rate : ℕ) → 0 < rate → rate ≤ mul_hi size second → word ≤ size * second / rate
too_long size rate p h =
    (le-div_iff_mul-le {k = rate} {x = word} {y = size * second} p).1
      (omega (arith, product_halves size second))

-- What serializationDelay returns, when it does not panic.
unfoldable pub serialized : Option ℕ → ℕ
serialized none = 0
serialized (some d) = d

-- The delay never panics: it is the exact quotient size * second / rate, cut off at the longest
-- Duration, with no product wrapped, and a rate of zero gives the longest Duration too.
pub serialization_delay_lem :
    (size rate : ℕ)
    → (0 < rate → serialization_delay size rate ≡ some (min (size * second / rate) max_int64))
      × (rate ≡ 0 → serialization_delay size rate ≡ some max_int64)
unfolding serialization_delay div64
serialization_delay_lem size rate =
    ((λ p. ground (arith, product_halves size second, too_long size rate p)), (λ z. ground arith))
