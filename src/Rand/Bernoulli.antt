-- ===== src/Rand/Bernoulli.antt =====
-- rand.go: stream.bernoulli against the comparison that it stands for.
use netchaos.Base.{ℕ, ◌*◌, ◌/◌, ◌^◌, ◌<◌, ◌≡◌, refl, true, arith, ltb, leb, leb→le, lt→ltb}
use netchaos.Base.Int.{pos, negsuc}
use netchaos.Base.Float.{Float64, nan, inf, neg_inf, finite, lt_float, le_float, of_53_bits, ulp53}
use netchaos.Rand.{Stream, next, bernoulli, word}

-- The draw as a float64 in [0, 1).
abbrev pub sample : Stream → Float64
sample s = of_53_bits (s.draws s.taken / 2 ^ 11)

above_one :
    (z u d : ℕ) → d < 2 ^ 64 → leb (2 ^ 53 * u) z ≡ true → 0 < u → ltb (d / 2 ^ 11 * u) z ≡ true
above_one z u d h e p = lt→ltb (d / 2 ^ 11 * u) z below
  where
    small : d / 2 ^ 11 < 2 ^ 53
    small = omega arith

    below : d / 2 ^ 11 * u < z
    below = grind (arith, leb→le (2 ^ 53 * u) z e)

ulp53-pos : 0 < ulp53
unfolding ulp53
ulp53-pos = omega arith

finite_trial :
    (z : ℕ) (s : Stream)
    → s.draws s.taken < word
    → bernoulli (finite (pos z)) s ≡ (lt_float (sample s) (finite (pos z)), (next s).1)
unfolding bernoulli lt_float le_float
finite_trial z s h = ground (arith, above_one z ulp53 (s.draws s.taken) h, ulp53-pos)

-- For every rate, NaN and the infinities among them, a trial succeeds exactly when the top 53 bits
-- of one 64-bit draw, as a fraction of 2 ^ 53, lie below the rate; and it takes exactly one draw.
pub bernoulli_lem :
    (rate : Float64) (s : Stream)
    → s.draws s.taken < word
    → bernoulli rate s ≡ (lt_float (sample s) rate, (next s).1)
bernoulli_lem nan s h = unfold bernoulli lt_float le_float in refl
bernoulli_lem inf s h = unfold bernoulli lt_float le_float in refl
bernoulli_lem neg_inf s h = unfold bernoulli lt_float le_float in refl
bernoulli_lem (finite (negsuc z)) s h = unfold bernoulli lt_float le_float in refl
bernoulli_lem (finite (pos z)) s h = finite_trial z s h
