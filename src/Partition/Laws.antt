-- ===== src/Partition/Laws.antt =====
-- The partitions after Partition and Heal, and the wake-ups of those who wait on them.
use netchaos.Base.{
  suc, ◌≡◌, ◌≢◌, refl, ◌∙◌, ◌⊎◌, inl, inr, Bool, true, false, not, List, [], if◌then◌else◌, arith,
  if_cases, Bool-cases, subst,
}
use netchaos.Peers.{Str, PairKey, new_pair_key, eq_pair, has_pair}
use netchaos.Peers.Pairs.{eq_pair_iff, eq_str_iff, has_pair-delete_pair}
use netchaos.Faults.{Shared, is_partitioned}
use netchaos.Partition.{
  Called, returned, panics, valid_pair, partition, heal, add_partition, remove_partition,
}

-- The partitions afterwards, pair by pair, and whether the channel was replaced.
abbrev pub Adds : PairKey → Shared → Shared → Type 0
Adds k n q =
    ((m : PairKey) → is_partitioned q m ≡ (if eq_pair k m then true else is_partitioned n m))
    × (q.part_notify ≡ (if is_partitioned n k then n.part_notify else suc n.part_notify))
    × (q.faults ≡ n.faults)

abbrev pub Removes : PairKey → Shared → Shared → Type 0
Removes k n q =
    ((m : PairKey) → is_partitioned q m ≡ (if eq_pair k m then false else is_partitioned n m))
    × (q.part_notify ≡ (if is_partitioned n k then suc n.part_notify else n.part_notify))
    × (q.faults ≡ n.faults)

kept :
    (k m : PairKey) (b : Bool) (ms : List PairKey)
    → has_pair k ms ≡ b
    → has_pair m ms ≡ (if eq_pair k m then b else has_pair m ms)
kept k m b ms h = elim (Bool-cases (eq_pair k m)) [
  | inl e ↦ subst (λ (x : PairKey). has_pair x ms ≡ b) ((eq_pair_iff k m).0 e) h ∙ ground arith
  | inr e ↦ ground arith
]

pub add_partition-Adds : (k : PairKey) (n : Shared) → Adds k n (add_partition k n)
unfolding add_partition is_partitioned has_pair
add_partition-Adds k n =
    if_cases (Adds k n) (has_pair k n.partitions) _ _
      (λ e. ((λ m. kept k m true n.partitions e), ground arith, refl))
      (λ e. ((λ m. ground arith), ground arith, refl))

pub remove_partition-Removes : (k : PairKey) (n : Shared) → Removes k n (remove_partition k n)
unfolding remove_partition is_partitioned
remove_partition-Removes k n =
    if_cases (Removes k n) (not (has_pair k n.partitions)) _ _
      (λ e. ((λ m. kept k m false n.partitions (ground arith)), ground arith, refl))
      (λ e. ((λ m. has_pair-delete_pair k m n.partitions), ground arith, refl))

abbrev pub PartitionSpec : (Str → Str) → Str → Str → Shared → Called Shared → Type 0
PartitionSpec resolve a b n (returned q) =
    (a ≢ []) × (b ≢ []) × (a ≢ b) × Adds (new_pair_key (resolve a) (resolve b)) n q
PartitionSpec resolve a b n panics = (a ≡ []) ⊎ (b ≡ []) ⊎ (a ≡ b)

abbrev pub HealSpec : (Str → Str) → Str → Str → Shared → Called Shared → Type 0
HealSpec resolve a b n (returned q) =
    (a ≢ []) × (b ≢ []) × (a ≢ b) × Removes (new_pair_key (resolve a) (resolve b)) n q
HealSpec resolve a b n panics = (a ≡ []) ⊎ (b ≡ []) ⊎ (a ≡ b)

valid : (a b : Str) → valid_pair a b ≡ true → (a ≢ []) × (b ≢ []) × (a ≢ b)
unfolding valid_pair
valid a b e = ground (arith, eq_str_iff a [], eq_str_iff b [], eq_str_iff a b)

invalid : (a b : Str) → valid_pair a b ≡ false → (a ≡ []) ⊎ (b ≡ []) ⊎ (a ≡ b)
unfolding valid_pair
invalid a b e = ground (arith, eq_str_iff a [], eq_str_iff b [], eq_str_iff a b)

-- Partition and Heal panic exactly on an empty name or two equal names. Otherwise Partition makes
-- the pair of the resolved names partitioned, Heal makes it not, and neither touches another pair
-- or the fault settings; and the channel that blocked dials and end-of-file reads wait on is
-- replaced exactly if the pair's state changed.
pub partition_lem :
    (resolve : Str → Str) (a b : Str) (n : Shared)
    → PartitionSpec resolve a b n (partition resolve a b n)
      × HealSpec resolve a b n (heal resolve a b n)
unfolding partition heal
partition_lem resolve a b n = (
  if_cases (PartitionSpec resolve a b n) (valid_pair a b) _ _
      (λ e. let v = valid a b e in (v.0, v.1, v.2, add_partition-Adds _ n)) (invalid a b),
  if_cases (HealSpec resolve a b n) (valid_pair a b) _ _
      (λ e. let v = valid a b e in (v.0, v.1, v.2, remove_partition-Removes _ n)) (invalid a b),
)
