-- ===== src/Tests/Parts.antt =====
-- The properties of the other parts at concrete inputs.
use netchaos.Base.{
  ℕ, ◌+◌, ◌-◌, ◌*◌, ◌/◌, ◌<◌, ◌≤◌, ◌==◌, if◌then◌else◌, ◌≡◌, ◌≢◌, ◌↔◌, ◌⊎◌, refl, true, false, none,
  some, [], ◌∷◌, ◌++◌, arith, length, min,
}
use netchaos.Base.Float.{one_float, lt_float}
use netchaos.Bandwidth.{serialization_delay, second, max_int64, serialization_delay_lem}
use netchaos.Rand.{
  dialer, latency, Stream, word, mul_lo, mul_hi, threshold, bernoulli, next, bounded_uint64,
  resample, uniform_duration, corruption_site,
}
use netchaos.Rand.Bounded.{
  IsWords, Accepted, FirstKept, skip, bounded_uint64_unbiased, bounded_uint64-first,
}
use netchaos.Rand.Bernoulli.{sample, bernoulli_lem}
use netchaos.Rand.Derivation.{stream_input-injective}
use netchaos.Peers.{Str}
use netchaos.Deadline.{new_deadline, set, expired}
use netchaos.Deadline.Expiry.{set_lem}
use netchaos.Partition.{partition, heal, set_packet_loss, set_duplication, set_corruption}
use netchaos.Partition.Laws.{PartitionSpec, HealSpec, partition_lem}
use netchaos.Partition.Settings.{RateSpec, set_rate_lem}
use netchaos.Listener.{new_listener, reserve, accept, fill, send_blocked}
use netchaos.Listener.Queue.{
  History, fresh, QueueReach, here, then_step, reserving, filling, accepting, Placed,
  fresh-QueueReach,
}
use netchaos.Addr.{NetIp, split, split_addr, peer_name, ephemeral_peer_name, wildcard_peer_name}
use netchaos.Addr.Text.{contains, decimal}
use netchaos.Addr.Splitting.{split_addr-join}
use netchaos.Addr.Names.{synthesized_names}
use netchaos.Tests.{top, shared}

top-IsWords : IsWords top
top-IsWords i = omega arith

drawn : bounded_uint64 1 6 top ≡ some (5, skip top 1)
unfolding bounded_uint64 resample mul_lo mul_hi next threshold
drawn = refl

bounded_uint64_unbiased_example :
    (lo : ℕ) × (lo + word / 6 ≤ word)
    × ((draw : ℕ)
        → (Accepted 6 draw × (mul_hi draw 6 ≡ 5)) ↔ ((lo ≤ draw) × (draw < lo + word / 6)))
bounded_uint64_unbiased_example =
    bounded_uint64_unbiased 6 5 (omega arith) (omega arith) (omega arith)

-- A stream whose first draw is rejected for the bound 6.
abbrev late : Stream
late = record { draws = λ i. if i == 0 then 0 else word - 1; taken = 0 }

late-FirstKept : FirstKept 6 late 1
unfolding threshold mul_lo
late-FirstKept = record { kept = omega arith; rejected = λ j h. ground arith }

bounded_uint64-first_example :
    bounded_uint64 2 6 late ≡ some (mul_hi (late.draws (late.taken + 1)) 6, skip late 2)
bounded_uint64-first_example =
    bounded_uint64-first 1 2 6 late (omega arith) (omega arith) late-FirstKept

bernoulli_lem_example : bernoulli one_float top ≡ (lt_float (sample top) one_float, (next top).1)
bernoulli_lem_example = bernoulli_lem one_float top (omega arith)

lasted : uniform_duration 1 2 7 top ≡ some (7, skip top 1)
unfolding uniform_duration bounded_uint64 resample mul_lo mul_hi next threshold
lasted = refl

site : corruption_site 1 6 top ≡ some (5, 7, skip top 2)
unfolding corruption_site bounded_uint64 resample mul_lo mul_hi next threshold
site = refl

serialization_delay_lem_example :
    (0 < 2 → serialization_delay 3 2 ≡ some (min (3 * second / 2) max_int64))
    × (◌≡◌ {A = ℕ} 2 0 → serialization_delay 3 2 ≡ some max_int64)
serialization_delay_lem_example = serialization_delay_lem 3 2

abbrev a : Str
a = b'a' ∷ []

abbrev b : Str
b = b'b' ∷ []

set_lem_example :
    ((expired 9 (set 3 8 new_deadline) ≡ true) ↔ (◌≢◌ {A = ℕ} 8 0 × (8 ≤ 9)))
    × (new_deadline.gen < (set 3 8 new_deadline).gen)
    × ((◌≡◌ {A = ℕ} 8 0 × ((set 3 8 new_deadline).timer ≡ none))
        ⊎ ((8 ≤ 3) × ((set 3 8 new_deadline).timer ≡ none))
        ⊎ ((expired 3 (set 3 8 new_deadline) ≡ false)
            × ((set 3 8 new_deadline).timer ≡ some (3 + min (8 - 3) max_int64))))
set_lem_example = set_lem 3 8 9 new_deadline

partition_lem_example :
    PartitionSpec (λ s. s) a b shared (partition (λ s. s) a b shared)
    × HealSpec (λ s. s) a b shared (heal (λ s. s) a b shared)
partition_lem_example = partition_lem (λ s. s) a b shared

set_rate_lem_example :
    RateSpec one_float
      (λ f. record f { loss_enabled = true; loss_rate = one_float })
      shared
      (set_packet_loss one_float shared)
    × RateSpec one_float
        (λ f. record f { duplicate_enabled = true; duplicate_rate = one_float })
        shared
        (set_duplication one_float shared)
    × RateSpec one_float
        (λ f. record f { corrupt_enabled = true; corrupt_rate = one_float })
        shared
        (set_corruption one_float shared)
set_rate_lem_example = set_rate_lem one_float shared

-- No text is an address literal.
abbrev names_only : NetIp
names_only = record { parse = λ s. none; text = λ ip. [] }

split_addr-join_example :
    (split_addr names_only (b ++ b':' ∷ decimal 8080) ≡ split b 8080 true)
    × (split_addr names_only b ≡ split b 0 false)
unfolding contains
split_addr-join_example =
    split_addr-join names_only b 8080 (refl, refl, refl) (omega arith) (omega arith) refl

differ : ◌≢◌ {A = ℕ} 3 12
differ e = omega arith

synthesized_names_example :
    (peer_name names_only (ephemeral_peer_name 3) ≡ ephemeral_peer_name 3)
    × (peer_name names_only (wildcard_peer_name 3) ≡ wildcard_peer_name 3)
    × (ephemeral_peer_name 3 ≢ ephemeral_peer_name 12)
    × (wildcard_peer_name 3 ≢ wildcard_peer_name 12)
    × (ephemeral_peer_name 3 ≢ wildcard_peer_name 12)
synthesized_names_example = synthesized_names names_only 3 12 differ

-- A dial fills in connection 5, and Accept takes it.
abbrev served : History
served = record {
  listener = record { incoming = []; bound = 1; closed = false; reserved = 0 };
  filled = 5 ∷ [];
  taken = 5 ∷ [];
  dropped = [];
}

served-QueueReach : QueueReach (fresh 1) served
unfolding new_listener reserve fill accept
served-QueueReach =
    then_step (then_step (then_step here (reserving (fresh 1))) (filling 5 _ (omega arith)))
      (accepting true _)

fresh-QueueReach_example :
    (length served.listener.incoming + served.listener.reserved ≤ served.listener.bound)
    × Placed served
    × ((served.listener.reserved ≡ 0) ⊎ ((fill 6 served.listener).0 ≢ send_blocked))
fresh-QueueReach_example = fresh-QueueReach 1 6 served served-QueueReach

stream_input-injective_example :
    ◌≡◌ {A = ℕ} 1 1 × ◌≡◌ {A = ℕ} 0 0 × (dialer ≡ dialer) × (latency ≡ latency)
stream_input-injective_example =
    stream_input-injective 1 1 0 0 dialer dialer latency latency (omega arith) (omega arith)
      (omega arith) (omega arith) refl
