-- ===== src/Tests.antt =====
-- The properties at concrete inputs. Two peers "a" and "b" on a network with a fixed latency of 2.
mod Pipes
mod Conns
mod Parts
mod Books
mod Networks
mod Resets
mod Dials
use netchaos.Base.{
  ℕ, ◌-◌, ◌^◌, ◌<◌, ◌≤◌, Bool, true, false, Option, none, some, List, [], ◌∷◌, arith,
}
use netchaos.Base.Float.{Float64, zero_float, one_float, finite}
use netchaos.Base.Int.{pos}
use netchaos.Rand.{Stream, word}
use netchaos.Rand.Bounded.{IsWords}
use netchaos.Rand.Ending.{Rich}
use netchaos.Peers.{PairKey, Str}
use netchaos.Faults.{FaultConfig, FaultEvent, FaultPolicy, Shared}
use netchaos.Pipe.State.{Pipe, PendingUnit, evaluator, pass_through}

-- Every draw is 2 ^ 64 - 1.
abbrev pub top : Stream
top = record { draws = λ i. word - 1; taken = 0 }

abbrev pub pair : PairKey
pair = record { a = b'a' ∷ []; b = b'b' ∷ [] }

abbrev pub latent : FaultConfig
latent = record {
  loss_enabled = true;
  loss_rate = zero_float;
  latency_enabled = true;
  latency_min = 2;
  latency_max = 2;
  bandwidth_enabled = false;
  bandwidth_bps = 0;
  duplicate_enabled = false;
  duplicate_rate = zero_float;
  corrupt_enabled = false;
  corrupt_rate = zero_float;
}

abbrev pub shared : Shared
shared = record { partitions = []; part_notify = 0; faults = latent }

abbrev pub policy : FaultPolicy
policy = record { has_network = true; pair = pair; static = latent }

-- A pipe with room for 8 bytes that nothing has been written to.
abbrev pub start : Pipe
start = record {
  readable = [];
  buf_bytes = 0;
  closed = false;
  read_closed = false;
  eof_seen = false;
  notify = 0;
  bound = 8;
  deliver = evaluator policy;
  has_network = true;
  partition_pair = pair;
  loss = top;
  latency = top;
  duplicate = top;
  corrupt = top;
  trace = some [];
  pending = [];
  timer = none;
  busy_until = 0;
  arms = 0;
}

abbrev pub once : Stream
once = record { draws = λ i. word - 1; taken = 1 }

abbrev pub unit : PendingUnit
unit = record { bytes = 7 ∷ 8 ∷ []; release_at = 2 }

abbrev pub event : FaultEvent
event = record {
  seq = 0;
  partitioned = false;
  dropped = false;
  duplicated = false;
  corrupted = false;
  drawn = 2;
  serialized = 0;
  effective = 2;
  size = 2;
  corrupt_byte = 0;
  corrupt_bit = 0;
}

-- After the write of two bytes at instant 0.
abbrev pub loaded : Pipe
loaded = record start {
  buf_bytes = 2;
  loss = once;
  latency = once;
  trace = some (event ∷ []);
  pending = unit ∷ [];
  timer = some 2;
  arms = 1;
}

-- After the release at instant 2.
abbrev pub ready : Pipe
ready = record loaded {
  readable = (7 ∷ 8 ∷ []) ∷ [];
  pending = [];
  timer = none;
  arms = 2;
  notify = 1;
}
