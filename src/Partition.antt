-- ===== src/Partition.antt =====
-- partition.go's Partition and Heal, and the setters of the fault settings (netchaos.go,
-- latency.go, loss.go, duplicate.go, corrupt.go): what changes the state that pipes share.
--
-- Peers are canonical names here, as canonicalPeer gives them. A panic is the answer `panics`.
pub mod Laws
pub mod Settings
use netchaos.Base.{
  ℕ, suc, Bool, true, false, ◌&&◌, ◌||◌, not, Option, none, some, List, [], ◌∷◌, if◌then◌else◌, ltb,
  leb,
}
use netchaos.Base.Int.{ℤ, pos, negsuc, lt_ℤ, pos_part}
use netchaos.Base.Float.{Float64, is_nan, lt_float, zero_float, one_float}
use netchaos.Peers.{Str, eq_str, PairKey, new_pair_key, delete_pair, has_pair}
use netchaos.Faults.{FaultConfig, Shared, is_partitioned}

-- A call that returned, with what it left, or that panicked.
pub data Called {ℓ} (A : Type ℓ) : Type ℓ where
  returned : A → Called A
  panics : Called A

-- The panics of validatePartitionPair.
unfoldable pub valid_pair : Str → Str → Bool
valid_pair a b = not (eq_str a [] || eq_str b []) && not (eq_str a b)

unfoldable pub bump_part_notify : Shared → Shared
bump_part_notify n = record n { part_notify = suc n.part_notify }

-- Partition and Heal, past the names, under the lock.
unfoldable pub add_partition : PairKey → Shared → Shared
unfolding bump_part_notify
add_partition k n =
    if is_partitioned n k then n else bump_part_notify (record n { partitions = k ∷ n.partitions })

unfoldable pub remove_partition : PairKey → Shared → Shared
unfolding bump_part_notify
remove_partition k n =
    if not (is_partitioned n k)
    then n
    else bump_part_notify (record n { partitions = delete_pair k n.partitions })

-- `resolve` is canonicalPeer of peerName.
unfoldable pub partition : (Str → Str) → Str → Str → Shared → Called Shared
partition resolve a b n =
    if valid_pair a b
    then returned (add_partition (new_pair_key (resolve a) (resolve b)) n)
    else panics

unfoldable pub heal : (Str → Str) → Str → Str → Shared → Called Shared
heal resolve a b n =
    if valid_pair a b
    then returned (remove_partition (new_pair_key (resolve a) (resolve b)) n)
    else panics

-- checkPartition: the answer and the channel, under one lock.
unfoldable pub check_partition : Shared → PairKey → Bool × ℕ
check_partition n k = (is_partitioned n k, n.part_notify)

-- validateLatencyRange's three tests.
unfoldable pub valid_latency : ℤ → ℤ → Bool
valid_latency min max = not (lt_ℤ min (pos 0)) && not (lt_ℤ max (pos 0)) && not (lt_ℤ max min)

-- The test that the loss, duplication and corruption rates share.
unfoldable pub valid_rate : Float64 → Bool
valid_rate rate = not (is_nan rate || lt_float rate zero_float || lt_float one_float rate)

-- Past validation, a duration is a natural number.
unfoldable pub set_latency : ℤ → ℤ → Shared → Called Shared
set_latency min max n =
    if valid_latency min max
    then returned (record n {
      faults = record n.faults {
        latency_enabled = true;
        latency_min = pos_part min;
        latency_max = pos_part max;
      };
    })
    else panics

unfoldable pub set_packet_loss : Float64 → Shared → Called Shared
set_packet_loss rate n =
    if valid_rate rate
    then returned (record n { faults = record n.faults { loss_enabled = true; loss_rate = rate } })
    else panics

unfoldable pub set_duplication : Float64 → Shared → Called Shared
set_duplication rate n =
    if valid_rate rate
    then returned
        (record n { faults = record n.faults { duplicate_enabled = true; duplicate_rate = rate } })
    else panics

unfoldable pub set_corruption : Float64 → Shared → Called Shared
set_corruption rate n =
    if valid_rate rate
    then returned
        (record n { faults = record n.faults { corrupt_enabled = true; corrupt_rate = rate } })
    else panics
