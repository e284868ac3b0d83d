-- ===== src/Partition/Settings.antt =====
-- What the setters take, and what they leave.
use netchaos.Base.{ℕ, ◌≤◌, ◌≡◌, refl, ◌⊎◌, ◌↔◌, inl, inr, true, if◌then◌else◌, arith, if_cases}
use netchaos.Base.Int.{ℤ, pos, negsuc, lt_ℤ}
use netchaos.Base.Float.{
  Float64, nan, inf, neg_inf, finite, is_nan, lt_float, le_float, zero_float, one_float,
}
use netchaos.Faults.{FaultConfig, Shared}
use netchaos.Partition.{
  Called, returned, panics, valid_latency, valid_rate, set_latency, set_packet_loss,
  set_duplication, set_corruption,
}

-- The rates between 0 and 1.
abbrev pub IsRate : Float64 → Type 0
IsRate r = (le_float zero_float r ≡ true) × (le_float r one_float ≡ true)

-- A setter of a rate, against the change that it makes to the settings.
abbrev pub RateSpec : Float64 → (FaultConfig → FaultConfig) → Shared → Called Shared → Type 0
RateSpec r change n (returned q) = IsRate r × (q ≡ record n { faults = change n.faults })
RateSpec r change n panics = ¬ IsRate r

valid_rate_iff : (r : Float64) → (valid_rate r ≡ true) ↔ IsRate r
unfolding valid_rate is_nan lt_float le_float
valid_rate_iff nan = ((λ e. cc), (λ h. cc))
valid_rate_iff inf = ((λ e. cc), (λ h. cc))
valid_rate_iff neg_inf = ((λ e. cc), (λ h. cc))
valid_rate_iff (finite (pos z)) = ground arith
valid_rate_iff (finite (negsuc z)) = ground arith

rate_spec :
    (r : Float64) (change : FaultConfig → FaultConfig) (n q : Shared)
    → q ≡ record n { faults = change n.faults }
    → RateSpec r change n (if valid_rate r then returned q else panics)
rate_spec r change n q h =
    if_cases (RateSpec r change n) (valid_rate r) _ _ (λ e. ((valid_rate_iff r).0 e, h))
      (λ e k. ground (arith, (valid_rate_iff r).1 k))

-- SetPacketLoss, SetDuplication and SetCorruption panic exactly on a value that is NaN or outside
-- [0, 1]. Otherwise each turns its own fault on, at that rate, and leaves every other setting, the
-- partitions and the channel as they were.
pub set_rate_lem :
    (r : Float64) (n : Shared)
    → RateSpec r (λ f. record f { loss_enabled = true; loss_rate = r }) n (set_packet_loss r n)
      × RateSpec r
          (λ f. record f { duplicate_enabled = true; duplicate_rate = r })
          n
          (set_duplication r n)
      × RateSpec r
          (λ f. record f { corrupt_enabled = true; corrupt_rate = r })
          n
          (set_corruption r n)
unfolding set_packet_loss set_duplication set_corruption
set_rate_lem r n = (
  rate_spec r (λ f. record f { loss_enabled = true; loss_rate = r }) n _ refl,
  rate_spec r (λ f. record f { duplicate_enabled = true; duplicate_rate = r }) n _ refl,
  rate_spec r (λ f. record f { corrupt_enabled = true; corrupt_rate = r }) n _ refl,
)

abbrev pub LatencySpec : ℤ → ℤ → Shared → Called Shared → Type 0
LatencySpec min max n (returned q) =
    (a : ℕ) × (b : ℕ) × (min ≡ pos a)
    × (max ≡ pos b)
    × (a ≤ b)
    × (q ≡ record n {
      faults = record n.faults { latency_enabled = true; latency_min = a; latency_max = b };
    })
LatencySpec min max n panics =
    (lt_ℤ min (pos 0) ≡ true) ⊎ (lt_ℤ max (pos 0) ≡ true) ⊎ (lt_ℤ max min ≡ true)

-- SetLatency panics exactly on a negative bound or bounds in the wrong order; otherwise latency is
-- on, between the two, and nothing else changes.
pub set_latency_lem : (min max : ℤ) (n : Shared) → LatencySpec min max n (set_latency min max n)
unfolding set_latency valid_latency
set_latency_lem (pos a) (pos b) n =
    if_cases (LatencySpec (pos a) (pos b) n) (valid_latency (pos a) (pos b)) _ _
      (λ e. (a, b, refl, refl, ground arith, refl)) (λ e. ground arith)
set_latency_lem (pos a) (negsuc b) n =
    if_cases (LatencySpec (pos a) (negsuc b) n) (valid_latency (pos a) (negsuc b)) _ _
      (λ e. absurd (ground arith)) (λ e. inr (inl refl))
set_latency_lem (negsuc a) (pos b) n = inl refl
set_latency_lem (negsuc a) (negsuc b) n = inl refl
