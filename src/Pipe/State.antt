-- ===== src/Pipe/State.antt =====
-- The state of a pipe, its wake-up channel and its latency timer (pipe.go, latency.go).
--
-- A channel that is closed and replaced is the count of its replacements: a goroutine that waits
-- on the channel of count g is woken once the count has passed g. The mutex makes each operation
-- one step. The timer is the instant at which it fires.
use netchaos.Base.{
  ℕ, suc, ◌+◌, ◌-◌, min, Bool, true, false, Option, none, some, List, [], ◌∷◌, ◌++◌, leb,
  if◌then◌else◌, length, ◌==◌,
}
use netchaos.Bandwidth.{max_int64}
use netchaos.Rand.{Stream}
use netchaos.Peers.{PairKey}
use netchaos.Faults.{FaultEvent, FaultPolicy, record_event}

pub record PendingUnit : Type 0 where
  pub bytes : List ℕ
  pub release_at : ℕ

-- The deliver function of a pipe: pass-through, or the evaluator of a fault policy.
pub data Deliver : Type 0 where
  pass_through : Deliver
  evaluator : FaultPolicy → Deliver

pub record Pipe : Type 0 where
  pub readable : List (List ℕ)
  pub buf_bytes : ℕ
  pub closed : Bool
  pub read_closed : Bool
  pub eof_seen : Bool
  pub notify : ℕ
  pub bound : ℕ
  pub deliver : Deliver
  pub has_network : Bool  -- whether partitionNetwork is set
  pub partition_pair : PairKey
  pub loss : Stream
  pub latency : Stream
  pub duplicate : Stream
  pub corrupt : Stream
  pub trace : Option (List FaultEvent)
  pub pending : List PendingUnit
  pub timer : Option ℕ
  pub busy_until : ℕ
  pub arms : ℕ

unfoldable pub broadcast : Pipe → Pipe
broadcast p = record p { notify = suc p.notify }

-- `if p.trace != nil { p.trace.record(e) }`
unfoldable pub add_event : FaultEvent → Option (List FaultEvent) → Option (List FaultEvent)
unfolding record_event
add_event e none = none
add_event e (some events) = some (record_event e events)

unfoldable pub trace_event : FaultEvent → Pipe → Pipe
unfolding add_event
trace_event e p = record p { trace = add_event e p.trace }

-- time.Until and time.AfterFunc: a Duration is cut off at max_int64, and a negative one is 0.
unfoldable pub fire_at : ℕ → ℕ → ℕ
fire_at now release_at = now + min (release_at - now) max_int64

unfoldable pub head_timer : ℕ → List PendingUnit → Option ℕ
unfolding fire_at
head_timer now [] = none
head_timer now (u ∷ us) = some (fire_at now u.release_at)

unfoldable pub arm_latency_timer : ℕ → Pipe → Pipe
unfolding head_timer
arm_latency_timer now p = record p { arms = suc p.arms; timer = head_timer now p.pending }

unfoldable pub arm_latency_for_append : ℕ → Pipe → Pipe
unfolding arm_latency_timer
arm_latency_for_append now p = if length p.pending == 1 then arm_latency_timer now p else p

-- The loop of releaseDueLatency: the due units at the front, and the rest.
unfoldable pub split_due : ℕ → List PendingUnit → List (List ℕ) × List PendingUnit
split_due now [] = ([], [])
split_due now (u ∷ us) =
    let (due, rest) = split_due now us in
    if leb u.release_at now then (u.bytes ∷ due, rest) else ([], u ∷ us)

abbrev pub is_nil {ℓ} : {A : Type ℓ} → List A → Bool
is_nil [] = true
is_nil (x ∷ xs) = false

unfoldable pub move_due : List (List ℕ) → List PendingUnit → Pipe → Pipe
unfolding broadcast
move_due due rest p =
    if is_nil due then p else broadcast (record p { readable = p.readable ++ due; pending = rest })

unfoldable pub release_due_latency : ℕ → Pipe → Pipe
unfolding split_due move_due arm_latency_timer
release_due_latency now p =
    if p.read_closed
    then p
    else let (due, rest) = split_due now p.pending in arm_latency_timer now (move_due due rest p)
