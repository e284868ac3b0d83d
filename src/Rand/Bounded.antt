-- ===== src/Rand/Bounded.antt =====
-- rand.go: stream.boundedUint64, Lemire's method.
use native.Mathlib.Nat.{
  mod-eq-sub-mod, mod-add-div', div-lt_iff_lt-mul, mod-lt, div-mul-le_self, lt-div-mul-add,
}
use netchaos.Base.{
  ℕ, zero, suc, ◌+◌, ◌-◌, ◌*◌, ◌/◌, ◌≤◌, ◌<◌, ◌≡◌, ◌↔◌, some, arith, lt→ltb, le→ltb, subst,
}
use netchaos.Rand.{Stream, next, word, mul_hi, mul_lo, threshold, resample, bounded_uint64}

-- A draw that the rejection loop keeps.
abbrev pub Accepted : ℕ → ℕ → Type 0
Accepted n draw = threshold n ≤ mul_lo draw n

abbrev pub IsWords : Stream → Type 0
IsWords s = (i : ℕ) → s.draws i < word

pub threshold-lt : (n : ℕ) → 0 < n → threshold n < n
unfolding threshold
threshold-lt n h = mod-lt (word - n) h

threshold_lem : (n : ℕ) → n < word → threshold n + (word / n) * n ≡ word
unfolding threshold
threshold_lem n k = rw (← mod-eq-sub-mod {n = word} {m = n} (omega arith)) (mod-add-div' word n)

mul_mono : (a b n : ℕ) → a ≤ b → a * n ≤ b * n
mul_mono a b n h = grind arith

lt_of_mul-lt : (a b n : ℕ) → a * n < b * n → a < b
lt_of_mul-lt a b n h = grind arith

-- The least multiple of n that is c or more.
least : ℕ → ℕ → ℕ
least c n = (c + (n - 1)) / n

least_bounds : (c n : ℕ) → 0 < n → (c ≤ least c n * n) × (least c n * n < c + n)
unfolding least
least_bounds c n h =
    omega (arith, div-mul-le_self (c + (n - 1)) n, lt-div-mul-add {a = c + (n - 1)} {b = n} h)

-- The multiples of n in an interval of length q * n starting at c.
multiples :
    (c n q d : ℕ)
    → 0 < n
    → ((c ≤ d * n) × (d * n < c + q * n)) ↔ ((least c n ≤ d) × (d < least c n + q))
multiples c n q d h = ((λ e. (to_low e.0, to_high e.1)), (λ e. (from_low e.0, from_high e.1)))
  where
    bounds : (c ≤ least c n * n) × (least c n * n < c + n)
    bounds = least_bounds c n h

    to_low : c ≤ d * n → least c n ≤ d
    to_low e = omega (arith, lt_of_mul-lt (least c n) (suc d) n (omega (arith, bounds)))

    to_high : d * n < c + q * n → d < least c n + q
    to_high e = lt_of_mul-lt d (least c n + q) n (omega (arith, bounds))

    from_low : least c n ≤ d → c ≤ d * n
    from_low e = omega (arith, bounds, mul_mono (least c n) d n e)

    from_high : d < least c n + q → d * n < c + q * n
    from_high e = omega (arith, bounds, mul_mono (suc d) (least c n + q) n e)

-- The product with the draw, split at the result: it lies in the r-th of n intervals, past the
-- rejected part, exactly when the draw is kept and gives r.
kept_iff :
    (n r draw : ℕ)
    → r < n
    → (Accepted n draw × (mul_hi draw n ≡ r))
      ↔ ((word * r + threshold n ≤ draw * n) × (draw * n < word * r + word))
unfolding mul_hi mul_lo
kept_iff n r draw b = ((λ e. omega arith), (λ e. omega arith))

-- Of the 2 ^ 64 values of a draw, the ones that are kept and that give the result r form one
-- interval of 2 ^ 64 / n values, for each r below n: every result is equally likely.
pub bounded_uint64_unbiased :
    (n r : ℕ)
    → 0 < n
    → n < word
    → r < n
    → (lo : ℕ) × (lo + word / n ≤ word)
      × ((draw : ℕ)
          → (Accepted n draw × (mul_hi draw n ≡ r)) ↔ ((lo ≤ draw) × (draw < lo + word / n)))
bounded_uint64_unbiased n r h k b = (least start n, fits, λ draw. (to draw, from draw))
  where
    start : ℕ
    start = word * r + threshold n

    end_eq : start + word / n * n ≡ word * r + word
    end_eq = omega (arith, threshold_lem n k)

    fits : least start n + word / n ≤ word
    fits = omega (
      arith,
      lt_of_mul-lt (least start n + word / n) (suc word) n
          (omega (arith, least_bounds start n h, end_eq, mul_mono (suc r) n word b)),
    )

    to :
        (draw : ℕ)
        → Accepted n draw × (mul_hi draw n ≡ r)
        → (least start n ≤ draw) × (draw < least start n + word / n)
    to draw e =
        let (p, q) = (kept_iff n r draw b).0 e in
        (multiples start n (word / n) draw h).0 (p, omega (arith, end_eq))

    from :
        (draw : ℕ)
        → (least start n ≤ draw) × (draw < least start n + word / n)
        → Accepted n draw × (mul_hi draw n ≡ r)
    from draw e =
        let (p, q) = (multiples start n (word / n) draw h).1 e in
        (kept_iff n r draw b).1 (p, omega (arith, end_eq))

mul_hi-lt : (draw n : ℕ) → draw < word → 0 < n → mul_hi draw n < n
unfolding mul_hi
mul_hi-lt draw n h p = (div-lt_iff_lt-mul {k = word} (omega arith)).1 (grind arith)

resample-lt :
    (fuel n hi lo : ℕ) (s : Stream) (v : ℕ) (t : Stream)
    → IsWords s
    → hi < n
    → resample fuel n hi lo s ≡ some (v, t)
    → v < n
unfolding resample
resample-lt zero n hi lo s v t w p e = ground arith
resample-lt (suc fuel) n hi lo s v t w p e =
    let draw = s.draws s.taken in
    ground (
      arith,
      resample-lt fuel n (mul_hi draw n) (mul_lo draw n) (next s).1 v t w,
      mul_hi-lt draw n (w s.taken),
    )

-- Every result lies in [0, n).
pub bounded_uint64-lt :
    (fuel n : ℕ) (s : Stream) (v : ℕ) (t : Stream)
    → IsWords s
    → 0 < n
    → bounded_uint64 fuel n s ≡ some (v, t)
    → v < n
unfolding bounded_uint64
bounded_uint64-lt fuel n s v t w p e =
    let draw = s.draws s.taken in
    ground (
      arith,
      mul_hi-lt draw n (w s.taken),
      resample-lt fuel n (mul_hi draw n) (mul_lo draw n) (next s).1 v t w,
    )

-- The draw k places on is the first that the rejection loop keeps.
pub record FirstKept (n : ℕ) (s : Stream) (k : ℕ) : Type 0 where
  pub kept : Accepted n (s.draws (s.taken + k))
  pub rejected : (j : ℕ) → j < k → mul_lo (s.draws (s.taken + j)) n < threshold n

FirstKept-next : (n k : ℕ) (s : Stream) → FirstKept n s (suc k) → FirstKept n (next s).1 k
unfolding next
FirstKept-next n k s f = record {
  kept = subst (λ i. Accepted n (s.draws i)) (omega arith) f.kept;
  rejected = λ j h.
      subst (λ i. mul_lo (s.draws i) n < threshold n) (omega arith)
        (f.rejected (suc j) (omega arith));
}

abbrev pub skip : Stream → ℕ → Stream
skip s k = record s { taken = s.taken + k }

resample_first :
    (k fuel n : ℕ) (s : Stream)
    → k < fuel
    → FirstKept n s k
    → resample fuel n (mul_hi (s.draws s.taken) n) (mul_lo (s.draws s.taken) n) (next s).1
      ≡ some (mul_hi (s.draws (s.taken + k)) n, skip s (suc k))
unfolding resample
resample_first zero (suc fuel) n s h f =
    rw
      (le→ltb _ _
        (subst (λ i. Accepted n (s.draws i)) {x = s.taken + 0} {y = s.taken} (omega arith) f.kept))
      (ground arith)
resample_first (suc k) (suc fuel) n s h f =
    rw (lt→ltb _ _ first)
      (ground (arith, resample_first k fuel n (next s).1 (omega arith) (FirstKept-next n k s f)))
  where
    first : mul_lo (s.draws s.taken) n < threshold n
    first =
        subst (λ i. mul_lo (s.draws i) n < threshold n) {x = s.taken + 0} {y = s.taken}
          (omega arith) (f.rejected 0 (omega arith))
resample_first k zero n s h f = absurd (omega arith)

-- With fuel for the rejected draws the loop ends: the result is that of the first draw that is
-- kept, and the stream has moved on by exactly the draws up to it.
pub bounded_uint64-first :
    (k fuel n : ℕ) (s : Stream)
    → 0 < n
    → k < fuel
    → FirstKept n s k
    → bounded_uint64 fuel n s ≡ some (mul_hi (s.draws (s.taken + k)) n, skip s (suc k))
unfolding bounded_uint64
bounded_uint64-first zero fuel n s p h f = ground (arith, resample_first zero fuel n s h f)
bounded_uint64-first (suc k) fuel n s p h f =
    ground (arith, threshold-lt n p, resample_first (suc k) fuel n s h f, f.rejected 0)

resample-draws :
    (fuel n hi lo : ℕ) (s : Stream) (v : ℕ) (t : Stream)
    → resample fuel n hi lo s ≡ some (v, t)
    → t.draws ≡ s.draws
unfolding resample
resample-draws zero n hi lo s v t e = ground arith
resample-draws (suc fuel) n hi lo s v t e =
    let draw = s.draws s.taken in
    ground (arith, resample-draws fuel n (mul_hi draw n) (mul_lo draw n) (next s).1 v t)

-- A stream's sequence of draws never changes; only the place in it does.
pub bounded_uint64-draws :
    (fuel n : ℕ) (s : Stream) (v : ℕ) (t : Stream)
    → bounded_uint64 fuel n s ≡ some (v, t)
    → t.draws ≡ s.draws
unfolding bounded_uint64
bounded_uint64-draws fuel n s v t e =
    let draw = s.draws s.taken in
    ground (arith, resample-draws fuel n (mul_hi draw n) (mul_lo draw n) (next s).1 v t)
