-- ===== src/Rand.antt =====
-- rand.go: the seeded streams that the faults draw from.
--
-- ChaCha8 is a deterministic generator: its key fixes the sequence of the 64-bit values that
-- `Uint64` returns. A `Stream` is that sequence, with the number of values taken from it.
-- SHA-256 and ChaCha8 themselves are parameters of `derive_stream`.
pub mod Bernoulli
pub mod Bounded
pub mod Uniform
pub mod Ending
pub mod Derivation
use netchaos.Base.{
  ℕ, zero, suc, ◌+◌, ◌-◌, ◌*◌, ◌/◌, ◌%◌, ◌^◌, Bool, true, false, Option, none, some, List, [], ◌∷◌,
  ◌++◌, ltb, if◌then◌else◌, ◌>>=◌,
}
use netchaos.Base.Float.{Float64, le_float, lt_float, of_53_bits, zero_float, one_float}

-- uint64 arithmetic is modulo `word`.
abbrev pub word : ℕ
word = 2 ^ 64

pub record Stream : Type 0 where
  pub draws : ℕ → ℕ
  pub taken : ℕ

pub data Side : Type 0 where
  dialer acceptor : Side

pub data FaultKind : Type 0 where
  loss latency duplicate corrupt : FaultKind

abbrev pub side_byte : Side → ℕ
side_byte dialer = 0
side_byte acceptor = 1

abbrev pub kind_byte : FaultKind → ℕ
kind_byte loss = 0
kind_byte latency = 1
kind_byte duplicate = 2
kind_byte corrupt = 3

-- binary.BigEndian.PutUint64: the eight bytes of a word, highest first.
unfoldable pub big_endian : ℕ → List ℕ
big_endian n =
    (n / 2 ^ 56 % 256)
    ∷ (n / 2 ^ 48 % 256)
    ∷ (n / 2 ^ 40 % 256)
    ∷ (n / 2 ^ 32 % 256)
    ∷ (n / 2 ^ 24 % 256)
    ∷ (n / 2 ^ 16 % 256)
    ∷ (n / 2 ^ 8 % 256)
    ∷ (n % 256)
    ∷ []

-- "nc1\x00"
abbrev pub domain_tag : List ℕ
domain_tag = b'n' ∷ b'c' ∷ b'1' ∷ 0 ∷ []

-- The 22 bytes that identify a stream. The seed is an int64, given by its 64-bit pattern.
unfoldable pub stream_input : ℕ → ℕ → Side → FaultKind → List ℕ
stream_input seed ordinal side kind =
    domain_tag
    ++ (big_endian seed ++ (big_endian ordinal ++ (side_byte side ∷ kind_byte kind ∷ [])))

unfoldable pub derive_stream :
    (List ℕ → List ℕ) → (List ℕ → ℕ → ℕ) → ℕ → ℕ → Side → FaultKind → Stream
derive_stream sum256 chacha8 seed ordinal side kind = record {
  draws = chacha8 (sum256 (stream_input seed ordinal side kind));
  taken = 0;
}

unfoldable pub next : Stream → ℕ × Stream
next s = (s.draws s.taken, record s { taken = suc s.taken })

-- The top 53 bits of the draw, as a float64 in [0, 1), against the rate.
unfoldable pub bernoulli : Float64 → Stream → Bool × Stream
unfolding next
bernoulli rate s =
    let (draw, rest) = next s in
    if le_float rate zero_float
    then (false, rest)
    else if le_float one_float rate
    then (true, rest)
    else (lt_float (of_53_bits (draw / 2 ^ 11)) rate, rest)

-- The two halves of bits.Mul64.
unfoldable pub mul_hi : ℕ → ℕ → ℕ
mul_hi a b = a * b / word

unfoldable pub mul_lo : ℕ → ℕ → ℕ
mul_lo a b = a * b % word

-- -n % n on uint64.
unfoldable pub threshold : ℕ → ℕ
threshold n = (word - n) % n

-- The rejection loop; `none` means that the fuel ran out.
unfoldable pub resample : ℕ → ℕ → ℕ → ℕ → Stream → Option (ℕ × Stream)
unfolding next
resample zero n hi lo s = none
resample (suc fuel) n hi lo s =
    let again =
      resample fuel n (mul_hi (s.draws s.taken) n) (mul_lo (s.draws s.taken) n) (next s).1 in
    if ltb lo (threshold n) then again else some (hi, s)

unfoldable pub bounded_uint64 : ℕ → ℕ → Stream → Option (ℕ × Stream)
unfolding next
bounded_uint64 fuel n s =
    let (draw, rest) = next s in
    if ltb (mul_lo draw n) n
    then resample fuel n (mul_hi draw n) (mul_lo draw n) rest
    else some (mul_hi draw n, rest)

-- Durations are naturals here: the ranges that reach this are checked not to be negative.
unfoldable pub uniform_duration : ℕ → ℕ → ℕ → Stream → Option (ℕ × Stream)
uniform_duration fuel min max s = do
  (v, rest) ← bounded_uint64 fuel ((max - min + 1) % word) s
  some (min + v, rest)

-- The byte index and the bit index of a corruption.
unfoldable pub corruption_site : ℕ → ℕ → Stream → Option (ℕ × ℕ × Stream)
corruption_site fuel n s = do
  (byte_index, rest) ← bounded_uint64 fuel n s
  (bit_index, rest') ← bounded_uint64 fuel 8 rest
  some (byte_index, bit_index, rest')
