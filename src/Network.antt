-- ===== src/Network.antt =====
-- netchaos.go: the Network, and NewNetwork.
--
-- A listener is known by its number, its place in `sockets`, which holds every listener that Listen
-- made. The map `listeners` is the list of its entries, the latest first. The reset registry and
-- the traces, which other mutexes guard, are in the modules Reset and Trace.
pub mod Ports
pub mod Listening
pub mod Changes
pub mod Answers
pub mod Registry
pub mod Closing
pub mod Adding
pub mod Steps
use netchaos.Base.{
  ℕ, suc, Bool, true, false, Option, none, some, List, [], ◌∷◌, ◌++◌, if◌then◌else◌,
}
use netchaos.Base.Int.{ℤ, pos_part}
use netchaos.Peers.{Str, PairKey, new_pair_key, has_pair}
use netchaos.Faults.{FaultConfig, Shared}
use netchaos.Addr.{Ip, NetIp, NetworkName, listen_port_base, peer_name}
use netchaos.Book.{Book, new_book, canonical_peer}
use netchaos.Listener.{Listener}
use netchaos.Partition.{Called, returned, panics}
use netchaos.Options.{PartitionPair, NetworkConfig, NetworkOption, configure}

-- A listener with its addr. `deregistering` is how far its Close has come: it has marked the
-- listener closed, and has yet to deregister it.
pub record Socket : Type 0 where
  pub queue : Listener
  pub network : NetworkName
  pub peer : Str
  pub port : ℕ
  pub ip : Ip
  pub deregistering : Bool

-- An entry of `listeners`.
pub record Registered : Type 0 where
  pub peer : Str
  pub port : ℕ
  pub socket : ℕ

pub record Network : Type 0 where
  pub seed : ℤ
  pub trace_enabled : Bool
  pub shared : Shared
  pub book : Book
  pub sockets : List Socket
  pub listeners : List Registered
  pub next_ordinal : ℕ
  pub next_listen_port : ℕ
  pub next_wildcard : ℕ
  pub pipe_bound : ℕ
  pub listener_backlog : ℕ

abbrev pub default_pipe_bound : ℕ
default_pipe_bound = 65536

abbrev pub default_listener_backlog : ℕ
default_listener_backlog = 128

-- The faults of a validated configuration: its durations and its rate in bytes are not negative.
unfoldable pub initial_faults : NetworkConfig → FaultConfig
initial_faults c = record {
  loss_enabled = c.loss_enabled;
  loss_rate = c.loss_rate;
  latency_enabled = c.latency_enabled;
  latency_min = pos_part c.latency_min;
  latency_max = pos_part c.latency_max;
  bandwidth_enabled = c.bandwidth_enabled;
  bandwidth_bps = pos_part c.bandwidth_bps;
  duplicate_enabled = c.duplicate_enabled;
  duplicate_rate = c.duplicate_rate;
  corrupt_enabled = c.corrupt_enabled;
  corrupt_rate = c.corrupt_rate;
}

unfoldable pub insert_pair : PairKey → List PairKey → List PairKey
insert_pair k ks = if has_pair k ks then ks else k ∷ ks

-- canonicalPeer of both names, the first before the second.
unfoldable pub resolve_pair : NetIp → Str → Str → Book → PairKey × Book
resolve_pair net a b book =
    let x = canonical_peer net (peer_name net a) book in
    let y = canonical_peer net (peer_name net b) x.1 in (new_pair_key x.0 y.0, y.1)

unfoldable pub static_partition : NetIp → PartitionPair → Network → Network
unfolding resolve_pair insert_pair
static_partition net p n =
    let r = resolve_pair net p.peer_a p.peer_b n.book in
    record n {
      book = r.1;
      shared = record n.shared { partitions = insert_pair r.0 n.shared.partitions };
    }

unfoldable pub static_partitioned : NetIp → List PartitionPair → Network → Network
unfolding static_partition
static_partitioned net [] n = n
static_partitioned net (p ∷ ps) n = static_partitioned net ps (static_partition net p n)

unfoldable pub fresh_network : NetworkConfig → Network
unfolding initial_faults
fresh_network c = record {
  seed = c.seed;
  trace_enabled = c.trace_enabled;
  shared = record { partitions = []; part_notify = 0; faults = initial_faults c };
  book = new_book;
  sockets = [];
  listeners = [];
  next_ordinal = 0;
  next_listen_port = listen_port_base;
  next_wildcard = 0;
  pipe_bound = if c.pipe_bound_enabled then pos_part c.pipe_bound else default_pipe_bound;
  listener_backlog =
      if c.listener_backlog_enabled then pos_part c.listener_backlog else default_listener_backlog;
}

unfoldable pub built : NetIp → Called NetworkConfig → Called Network
unfolding static_partitioned fresh_network
built net panics = panics
built net (returned c) = returned (static_partitioned net c.static_partitions (fresh_network c))

unfoldable pub new_network : NetIp → List (Option NetworkOption) → Called Network
unfolding built configure
new_network net opts = built net (configure opts)
