-- ===== src/Faults.antt =====
-- faults.go and trace.go: the fault settings that the evaluator reads, and the events that it
-- records. Durations and instants are naturals, in nanoseconds; instant 0 is Go's zero time.
use netchaos.Base.{ℕ, Bool, List, [], ◌∷◌, ◌++◌, length}
use netchaos.Base.Float.{Float64}
use netchaos.Peers.{PairKey, has_pair}

-- Validation keeps the durations and the byte rate from being negative, so they are naturals.
pub record FaultConfig : Type 0 where
  pub loss_enabled : Bool
  pub loss_rate : Float64
  pub latency_enabled : Bool
  pub latency_min : ℕ
  pub latency_max : ℕ
  pub bandwidth_enabled : Bool
  pub bandwidth_bps : ℕ
  pub duplicate_enabled : Bool
  pub duplicate_rate : Float64
  pub corrupt_enabled : Bool
  pub corrupt_rate : Float64

pub record FaultEvent : Type 0 where
  pub seq : ℕ
  pub partitioned : Bool
  pub dropped : Bool
  pub duplicated : Bool
  pub corrupted : Bool
  pub drawn : ℕ
  pub serialized : ℕ
  pub effective : ℕ
  pub size : ℕ
  pub corrupt_byte : ℕ
  pub corrupt_bit : ℕ

-- traceRecorder.record: the event gets the next sequence number.
unfoldable pub record_event : FaultEvent → List FaultEvent → List FaultEvent
record_event e events = events ++ record e { seq = length events } ∷ []

-- What the pipes of a Network read of it: `partitions`, `partNotify` (by how often it was
-- replaced) and `faults`.
pub record Shared : Type 0 where
  pub partitions : List PairKey
  pub part_notify : ℕ
  pub faults : FaultConfig

unfoldable pub is_partitioned : Shared → PairKey → Bool
is_partitioned n k = has_pair k n.partitions

-- `has_network` is whether the pointer `network` is set.
pub record FaultPolicy : Type 0 where
  pub has_network : Bool
  pub pair : PairKey
  pub static : FaultConfig
