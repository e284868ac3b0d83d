-- ===== src/Dial/Connection.antt =====
-- The connection that DialContext of netchaos.go makes, with newConnPairWithSeedAndTrace of conn.go.
use netchaos.Base.{ℕ, ◌-◌, ◌%◌, Bool, true, false, Option, none, some, List, [], if◌then◌else◌}
use netchaos.Base.Int.{ℤ, pos, negsuc}
use netchaos.Base.Float.{zero_float}
use netchaos.Rand.{
  Stream, Side, dialer, acceptor, FaultKind, loss, latency, duplicate, corrupt, word, derive_stream,
}
use netchaos.Peers.{PairKey}
use netchaos.Faults.{FaultEvent, FaultPolicy}
use netchaos.Pipe.State.{Pipe}
use netchaos.Pipe.Evaluate.{install_fault_policy}
use netchaos.Pipe.Ops.{new_pipe}
use netchaos.Conn.{Link, new_conn_pair}
use netchaos.Network.{Network}

-- uint64(seed)
unfoldable pub seed_bits : ℤ → ℕ
seed_bits (pos n) = n % word
seed_bits (negsuc n) = word - 1 - n % word

-- faultPolicy{network: n, pair: pair}, whose static settings are the zero value.
unfoldable pub network_policy : PairKey → FaultPolicy
network_policy pair = record {
  has_network = true;
  pair = pair;
  static = record {
    loss_enabled = false;
    loss_rate = zero_float;
    latency_enabled = false;
    latency_min = 0;
    latency_max = 0;
    bandwidth_enabled = false;
    bandwidth_bps = 0;
    duplicate_enabled = false;
    duplicate_rate = zero_float;
    corrupt_enabled = false;
    corrupt_rate = zero_float;
  };
}

unfoldable pub new_recorder : Bool → Option (List FaultEvent)
new_recorder enabled = if enabled then some [] else none

module _ (sum256 : List ℕ → List ℕ) (chacha8 : List ℕ → ℕ → ℕ) where
  unfoldable pub stream_of : Network → ℕ → Side → FaultKind → Stream
  unfolding seed_bits derive_stream
  stream_of n ordinal side kind = derive_stream sum256 chacha8 (seed_bits n.seed) ordinal side kind

  -- The pipe that a side writes to.
  unfoldable pub direction_pipe : Network → ℕ → Side → PairKey → Pipe
  unfolding stream_of network_policy new_recorder install_fault_policy new_pipe
  direction_pipe n ordinal side pair = install_fault_policy (network_policy pair) (
      new_pipe n.pipe_bound pair (stream_of n ordinal side loss) (stream_of n ordinal side latency)
        (stream_of n ordinal side duplicate) (stream_of n ordinal side corrupt)
        (new_recorder n.trace_enabled))

  unfoldable pub new_connection : Network → ℕ → PairKey → Link
  unfolding direction_pipe new_conn_pair
  new_connection n ordinal pair =
      new_conn_pair (direction_pipe n ordinal dialer pair) (direction_pipe n ordinal acceptor pair)
