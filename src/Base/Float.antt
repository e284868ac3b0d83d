-- ===== src/Base/Float.antt =====
-- float64, as far as the fault rates use it. Every finite float64 is an integer multiple of
-- 2 ^ -1074, the least subnormal: `finite z` is z * 2 ^ -1074, so each float64 is one of these
-- values and the comparisons are exact. (-0.0 and 0.0 compare alike, and are one value here.)
use netchaos.Base.Int.{ℤ, pos, lt_ℤ, le_ℤ}
use Prim.Native.Nat.{ℕ, ◌*◌, ◌^◌}
use mathlib.Core.Bool.{Bool, true, false}

pub data Float64 : Type 0 where
  nan : Float64
  inf : Float64
  neg_inf : Float64
  finite : ℤ → Float64

unfoldable pub is_nan : Float64 → Bool
is_nan nan = true
is_nan inf = false
is_nan neg_inf = false
is_nan (finite z) = false

-- a < b. A comparison with NaN is false.
unfoldable pub lt_float : Float64 → Float64 → Bool
lt_float nan b = false
lt_float inf b = false
lt_float neg_inf nan = false
lt_float neg_inf inf = true
lt_float neg_inf neg_inf = false
lt_float neg_inf (finite z) = true
lt_float (finite z) nan = false
lt_float (finite z) inf = true
lt_float (finite z) neg_inf = false
lt_float (finite z) (finite w) = lt_ℤ z w

-- a <= b.
unfoldable pub le_float : Float64 → Float64 → Bool
le_float nan b = false
le_float inf nan = false
le_float inf inf = true
le_float inf neg_inf = false
le_float inf (finite z) = false
le_float neg_inf nan = false
le_float neg_inf inf = true
le_float neg_inf neg_inf = true
le_float neg_inf (finite z) = true
le_float (finite z) nan = false
le_float (finite z) inf = true
le_float (finite z) neg_inf = false
le_float (finite z) (finite w) = le_ℤ z w

-- 2 ^ 1021 least subnormals make 2 ^ -53.
unfoldable pub ulp53 : ℕ
ulp53 = 2 ^ 1021

-- The float64 k / 2 ^ 53, for k at most 2 ^ 53: the division by a power of two is exact.
abbrev pub of_53_bits : ℕ → Float64
of_53_bits k = finite (pos (k * ulp53))

abbrev pub zero_float : Float64
zero_float = of_53_bits 0

abbrev pub one_float : Float64
one_float = of_53_bits (2 ^ 53)
