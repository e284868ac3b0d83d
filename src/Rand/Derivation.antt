-- ===== src/Rand/Derivation.antt =====
-- rand.go: the input that deriveStream hashes.
use netchaos.Base.{ℕ, zero, suc, drop, ◌/◌, ◌%◌, ◌^◌, ◌<◌, ◌≡◌, ap, List, [], ◌∷◌, ◌++◌, arith}
use netchaos.Rand.{Side, FaultKind, word, side_byte, kind_byte, big_endian, stream_input}

byte_at : ℕ → List ℕ → ℕ
byte_at i [] = 0
byte_at zero (x ∷ xs) = x
byte_at (suc i) (x ∷ xs) = byte_at i xs

big_endian-injective :
    (m n : ℕ) (xs ys : List ℕ)
    → m < word
    → n < word
    → big_endian m ++ xs ≡ big_endian n ++ ys
    → (m ≡ n) × (xs ≡ ys)
unfolding big_endian byte_at
big_endian-injective m n xs ys h k e =
    let b0 : m / 2 ^ 56 % 256 ≡ n / 2 ^ 56 % 256 = ap (byte_at 0) e in
    let b1 : m / 2 ^ 48 % 256 ≡ n / 2 ^ 48 % 256 = ap (byte_at 1) e in
    let b2 : m / 2 ^ 40 % 256 ≡ n / 2 ^ 40 % 256 = ap (byte_at 2) e in
    let b3 : m / 2 ^ 32 % 256 ≡ n / 2 ^ 32 % 256 = ap (byte_at 3) e in
    let b4 : m / 2 ^ 24 % 256 ≡ n / 2 ^ 24 % 256 = ap (byte_at 4) e in
    let b5 : m / 2 ^ 16 % 256 ≡ n / 2 ^ 16 % 256 = ap (byte_at 5) e in
    let b6 : m / 2 ^ 8 % 256 ≡ n / 2 ^ 8 % 256 = ap (byte_at 6) e in
    let b7 : m % 256 ≡ n % 256 = ap (byte_at 7) e in (omega arith, ap (drop 8) e)

side-injective : (s t : Side) → side_byte s ≡ side_byte t → s ≡ t
side-injective s t e = ground arith

kind-injective : (s t : FaultKind) → kind_byte s ≡ kind_byte t → s ≡ t
kind-injective s t e = ground arith

-- Two streams are derived from the same bytes only if they have the same seed, the same ordinal, the
-- same side and the same fault kind.
pub stream_input-injective :
    (seed seed' ordinal ordinal' : ℕ) (side side' : Side) (kind kind' : FaultKind)
    → seed < word
    → seed' < word
    → ordinal < word
    → ordinal' < word
    → stream_input seed ordinal side kind ≡ stream_input seed' ordinal' side' kind'
    → (seed ≡ seed') × (ordinal ≡ ordinal') × (side ≡ side') × (kind ≡ kind')
unfolding stream_input byte_at
stream_input-injective seed seed' ordinal ordinal' side side' kind kind' h h' k k' e =
    let (same_seed, more) = big_endian-injective seed seed' _ _ h h' (ap (drop 4) e) in
    let (same_ordinal, rest) = big_endian-injective ordinal ordinal' _ _ k k' more in
    (
      same_seed,
      same_ordinal,
      side-injective side side' (ap (byte_at 0) rest),
      kind-injective kind kind' (ap (byte_at 1) rest),
    )
