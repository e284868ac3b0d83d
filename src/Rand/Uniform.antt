-- ===== src/Rand/Uniform.antt =====
-- rand.go: stream.uniformDuration and stream.corruptionSite.
use netchaos.Base.{
  ℕ, ◌+◌, ◌-◌, ◌^◌, ◌≤◌, ◌<◌, ◌≡◌, some, arith, >>=-eq-some, sym, ◌%◌, ◌*◌, ◌/◌, subst,
}
use netchaos.Rand.{Stream, bounded_uint64, uniform_duration, corruption_site, word, mul_hi}
use netchaos.Rand.Bounded.{
  IsWords, FirstKept, bounded_uint64-lt, bounded_uint64-first, bounded_uint64-draws, threshold-lt,
  skip,
}

-- The largest time.Duration.
abbrev pub max_duration : ℕ
max_duration = 2 ^ 63 - 1

span_lem : (lo hi : ℕ) → hi ≤ max_duration → (hi - lo + 1) % word ≡ hi - lo + 1
span_lem lo hi h = omega arith

-- A duration drawn from a valid range lies in it, ends included.
pub uniform_duration_range :
    (fuel lo hi : ℕ) (s : Stream) (d : ℕ) (t : Stream)
    → IsWords s
    → lo ≤ hi
    → hi ≤ max_duration
    → uniform_duration fuel lo hi s ≡ some (d, t)
    → (lo ≤ d) × (d ≤ hi)
unfolding uniform_duration
uniform_duration_range fuel lo hi s d t w h k e =
    let ((v, rest), found, value) =
      >>=-eq-some (bounded_uint64 fuel ((hi - lo + 1) % word) s) _ e in
    let below = bounded_uint64-lt fuel _ s v rest w (omega arith) found in
    (ground arith, ground arith)

one_kept : (s : Stream) → FirstKept 1 s 0
one_kept s = record {
  kept = omega (arith, threshold-lt 1 (omega arith));
  rejected = λ j h. absurd (omega arith);
}

-- A fixed delay is always drawn as itself, and takes exactly one draw.
pub uniform_duration_fixed :
    (fuel d : ℕ) (s : Stream)
    → IsWords s
    → 0 < fuel
    → uniform_duration fuel d d s ≡ some (d, skip s 1)
unfolding uniform_duration mul_hi
uniform_duration_fixed fuel d s w h =
    let span : (d - d + 1) % word ≡ 1 = omega arith in
    let zeroth : s.draws (s.taken + 0) * 1 / word ≡ 0 = omega (arith, w (s.taken + 0)) in
    rw (span, bounded_uint64-first 0 fuel 1 s (omega arith) h (one_kept s)) (ground (arith, zeroth))

-- The corrupted byte lies in the payload, and the bit in the byte.
pub corruption_site_range :
    (fuel n : ℕ) (s : Stream) (i b : ℕ) (t : Stream)
    → IsWords s
    → 0 < n
    → corruption_site fuel n s ≡ some (i, b, t)
    → (i < n) × (b < 8)
unfolding corruption_site
corruption_site_range fuel n s i b t w h e =
    let ((i', rest), first, more) = >>=-eq-some (bounded_uint64 fuel n s) _ e in
    let ((b', rest'), second, result) = >>=-eq-some (bounded_uint64 fuel 8 rest) _ more in
    let i_lt = bounded_uint64-lt fuel n s i' rest w h first in
    let b_lt =
      bounded_uint64-lt fuel 8 rest b' rest'
        (subst (λ (f : ℕ → ℕ). (j : ℕ) → f j < word)
          (sym (bounded_uint64-draws fuel n s i' rest first)) w)
        (omega arith) second in
    (ground arith, ground arith)
