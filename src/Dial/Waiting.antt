-- ===== src/Dial/Waiting.antt =====
-- waitUnpartitioned of netchaos.go, while others call Partition and Heal.
use netchaos.Base.{ℕ, ◌≤◌, ◌<◌, ◌≡◌, ◌≢◌, refl, ap, ◌⊎◌, inr, Bool, true, false, arith}
use netchaos.Peers.{PairKey}
use netchaos.Peers.Pairs.{eq_pair_iff}
use netchaos.Faults.{Shared, is_partitioned}
use netchaos.Partition.{check_partition, add_partition, remove_partition}
use netchaos.Partition.Laws.{add_partition-Adds, remove_partition-Removes}
use netchaos.Dial.Lookup.{DialWait, checking, waiting, passed, cancelled, wait_on, wait_turn}

-- A turn of the loop, a replaced channel that wakes it, a context that is done, and what other
-- goroutines do in between.
pub data WaitStep (k : PairKey) : Shared × DialWait → Shared × DialWait → Type 0 where
  turning : (n : Shared) → WaitStep k (n, checking) (n, wait_turn k n)
  waking : (n : Shared) (g : ℕ) → g ≢ n.part_notify → WaitStep k (n, waiting g) (n, checking)
  cancelling : (n : Shared) (g : ℕ) → WaitStep k (n, waiting g) (n, cancelled)
  partitioning :
      (m : PairKey) (n : Shared) (w : DialWait) → WaitStep k (n, w) (add_partition m n, w)
  healing : (m : PairKey) (n : Shared) (w : DialWait) → WaitStep k (n, w) (remove_partition m n, w)

pub data WaitReach (k : PairKey) (x : Shared × DialWait) : Shared × DialWait → Type 0 where
  here : WaitReach k x x
  then_step : {y z : Shared × DialWait} → WaitReach k x y → WaitStep k y z → WaitReach k x z

-- A channel of an earlier state has been replaced since; the present one was seen with the pair
-- partitioned.
abbrev Held : PairKey → Shared × DialWait → Type 0
Held k (n, checking) = Unit
Held k (n, waiting g) = (g ≤ n.part_notify) × ((g < n.part_notify) ⊎ (is_partitioned n k ≡ true))
Held k (n, passed) = Unit
Held k (n, cancelled) = Unit

turn-Held : (k : PairKey) (n : Shared) → Held k (n, wait_turn k n)
unfolding wait_turn wait_on check_partition
turn-Held k n = from (is_partitioned n k) refl
  where
    from : (b : Bool) → is_partitioned n k ≡ b → Held k (n, wait_on (b, n.part_notify))
    from true e = (omega arith, inr e)
    from false e = tt

partitioning-Held :
    (k m : PairKey) (n : Shared) (w : DialWait) → Held k (n, w) → Held k (add_partition m n, w)
partitioning-Held k m n checking h = h
partitioning-Held k m n (waiting g) h =
    let a = add_partition-Adds m n in let at = a.0 k in ground (arith, h, at, a.1)
partitioning-Held k m n passed h = h
partitioning-Held k m n cancelled h = h

healing-Held :
    (k m : PairKey) (n : Shared) (w : DialWait) → Held k (n, w) → Held k (remove_partition m n, w)
healing-Held k m n checking h = h
healing-Held k m n (waiting g) h =
    let a = remove_partition-Removes m n in
    let at = a.0 k in ground (arith, h, at, a.1, eq_pair_iff m k)
healing-Held k m n passed h = h
healing-Held k m n cancelled h = h

WaitStep-Held : {k : PairKey} {x y : Shared × DialWait} → WaitStep k x y → Held k x → Held k y
WaitStep-Held {k} (turning n) h = turn-Held k n
WaitStep-Held (waking n g e) h = tt
WaitStep-Held (cancelling n g) h = tt
WaitStep-Held {k} (partitioning m n w) h = partitioning-Held k m n w h
WaitStep-Held {k} (healing m n w) h = healing-Held k m n w h

WaitReach-Held : {k : PairKey} {x y : Shared × DialWait} → WaitReach k x y → Held k x → Held k y
WaitReach-Held here h = h
WaitReach-Held (then_step r s) h = WaitStep-Held s (WaitReach-Held r h)

-- No Heal is missed: whatever Partitions and Heals came while a dial waited, as soon as its pair is
-- not partitioned the channel that it waits on has been closed, so it can go on, and its next turn,
-- if nothing partitions the pair before that, lets it pass.
pub checking-WaitReach :
    (k : PairKey) (n m : Shared) (g : ℕ)
    → WaitReach k (n, checking) (m, waiting g)
    → is_partitioned m k ≡ false
    → WaitStep k (m, waiting g) (m, checking) × (wait_turn k m ≡ passed)
unfolding wait_turn wait_on check_partition
checking-WaitReach k n m g reach healed =
    let held = WaitReach-Held reach tt in
    (waking m g (ground (arith, held)), ap (λ b. wait_on (b, m.part_notify)) healed)
