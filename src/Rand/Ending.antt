-- ===== src/Rand/Ending.antt =====
-- rand.go: the fuel of the rejection loop.
use netchaos.Base.{
  ℕ, zero, suc, ◌+◌, ◌-◌, ◌%◌, ◌≤◌, ◌<◌, ◌≡◌, refl, sym, ap, subst, Option, some, ◌>>=◌, arith, ltb,
  if_cases, ltb→lt,
}
use netchaos.Rand.{
  Stream, next, word, mul_hi, mul_lo, threshold, resample, bounded_uint64, uniform_duration,
  corruption_site,
}
use netchaos.Rand.Bounded.{Accepted, bounded_uint64-draws}
use netchaos.Rand.Uniform.{max_duration}

-- Among any `fuel` values in a row, the rejection loop keeps one, for every bound.
abbrev pub Rich : ℕ → (ℕ → ℕ) → Type 0
Rich fuel draws = (n i : ℕ) → 0 < n → n < word → (k : ℕ) × (k < fuel) × Accepted n (draws (i + k))

abbrev pub Gives : Option (ℕ × Stream) → Type 0
Gives o = (v : ℕ) × (t : Stream) × (o ≡ some (v, t))

resample-Gives :
    (k fuel n : ℕ) (s : Stream)
    → k < fuel
    → Accepted n (s.draws (s.taken + k))
    → Gives (resample fuel n (mul_hi (s.draws s.taken) n) (mul_lo (s.draws s.taken) n) (next s).1)
unfolding resample next
resample-Gives k zero n s h a = absurd (omega arith)
resample-Gives zero (suc fuel) n s h a =
    let kept : threshold n ≤ mul_lo (s.draws s.taken) n =
      subst (λ i. Accepted n (s.draws i)) {x = s.taken + 0} {y = s.taken} (omega arith) a in
    if_cases Gives (ltb (mul_lo (s.draws s.taken) n) (threshold n)) _ _
      (λ e. absurd (omega (arith, ltb→lt (mul_lo (s.draws s.taken) n) (threshold n) e)))
      (λ _. (_, _, refl))
resample-Gives (suc k) (suc fuel) n s h a =
    if_cases Gives (ltb (mul_lo (s.draws s.taken) n) (threshold n)) _ _
      (λ _.
        resample-Gives k fuel n (next s).1 (omega arith)
          (subst (λ i. Accepted n (s.draws i)) (omega arith) a))
      (λ _. (_, _, refl))

pub bounded_uint64-Gives :
    (fuel n : ℕ) (s : Stream)
    → 0 < n
    → n < word
    → Rich fuel s.draws
    → Gives (bounded_uint64 fuel n s)
unfolding bounded_uint64 next
bounded_uint64-Gives fuel n s p h r =
    let (k, below, kept) = r n s.taken p h in
    if_cases Gives (ltb (mul_lo (s.draws s.taken) n) n) _ _
      (λ _. resample-Gives k fuel n s below kept) (λ _. (_, _, refl))

pub uniform_duration-Gives :
    (fuel lo hi : ℕ) (s : Stream)
    → lo ≤ hi
    → hi ≤ max_duration
    → Rich fuel s.draws
    → Gives (uniform_duration fuel lo hi s)
unfolding uniform_duration
uniform_duration-Gives fuel lo hi s h k r =
    let (v, t, e) =
      bounded_uint64-Gives fuel ((hi - lo + 1) % word) s (omega arith) (omega arith) r in
    (lo + v, t, ap (λ (o : Option (ℕ × Stream)). o >>= λ (x, rest). some (lo + x, rest)) e)

pub corruption_site-Gives :
    (fuel n : ℕ) (s : Stream)
    → 0 < n
    → n < word
    → Rich fuel s.draws
    → (i : ℕ) × (b : ℕ) × (t : Stream) × (corruption_site fuel n s ≡ some (i, b, t))
unfolding corruption_site
corruption_site-Gives fuel n s p h r =
    let (i, t, e) = bounded_uint64-Gives fuel n s p h r in
    let (b, u, f) =
      bounded_uint64-Gives fuel 8 t (omega arith) (omega arith)
        (subst (Rich fuel) (sym (bounded_uint64-draws fuel n s i t e)) r) in
    (i, b, u, simp (e, f))
