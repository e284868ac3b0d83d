-- ===== src/Options.antt =====
-- options.go and the With functions: what a Network is configured with.
--
-- An option is data here, for the closure that the With function returns; `none` in a list of
-- options is Go's nil.
pub mod Last
pub mod Validation
use netchaos.Base.{
  ℕ, Bool, true, false, ◌&&◌, ◌||◌, not, Option, none, some, List, [], ◌∷◌, ◌++◌, if◌then◌else◌,
  ◌>>=◌,
}
use netchaos.Base.Int.{ℤ, pos, negsuc, lt_ℤ, le_ℤ}
use netchaos.Base.Float.{Float64, zero_float}
use netchaos.Peers.{Str}
use netchaos.Partition.{Called, returned, panics, valid_pair, valid_latency, valid_rate}

-- The raw arguments of a WithPartition.
pub record PartitionPair : Type 0 where
  pub peer_a : Str
  pub peer_b : Str

pub record NetworkConfig : Type 0 where
  pub seed : ℤ
  pub trace_enabled : Bool
  pub latency_enabled : Bool
  pub latency_min : ℤ
  pub latency_max : ℤ
  pub loss_enabled : Bool
  pub loss_rate : Float64
  pub bandwidth_enabled : Bool
  pub bandwidth_bps : ℤ
  pub duplicate_enabled : Bool
  pub duplicate_rate : Float64
  pub corrupt_enabled : Bool
  pub corrupt_rate : Float64
  pub static_partitions : List PartitionPair
  pub pipe_bound_enabled : Bool
  pub pipe_bound : ℤ
  pub listener_backlog_enabled : Bool
  pub listener_backlog : ℤ

pub data NetworkOption : Type 0 where
  with_seed : ℤ → NetworkOption
  with_trace : Bool → NetworkOption
  with_latency : ℤ → ℤ → NetworkOption
  with_packet_loss : Float64 → NetworkOption
  with_bandwidth : ℤ → NetworkOption
  with_duplication : Float64 → NetworkOption
  with_corruption : Float64 → NetworkOption
  with_partition : Str → Str → NetworkOption
  with_pipe_bound : ℤ → NetworkOption
  with_listener_backlog : ℤ → NetworkOption

-- `networkConfig{seed: defaultSeed, traceEnabled: true}`
unfoldable pub default_config : NetworkConfig
default_config = record {
  seed = pos 1;
  trace_enabled = true;
  latency_enabled = false;
  latency_min = pos 0;
  latency_max = pos 0;
  loss_enabled = false;
  loss_rate = zero_float;
  bandwidth_enabled = false;
  bandwidth_bps = pos 0;
  duplicate_enabled = false;
  duplicate_rate = zero_float;
  corrupt_enabled = false;
  corrupt_rate = zero_float;
  static_partitions = [];
  pipe_bound_enabled = false;
  pipe_bound = pos 0;
  listener_backlog_enabled = false;
  listener_backlog = pos 0;
}

-- What the closure of each With function does.
unfoldable pub apply_seed : ℤ → NetworkConfig → NetworkConfig
apply_seed seed c = record c { seed = seed }

unfoldable pub apply_trace : Bool → NetworkConfig → NetworkConfig
apply_trace enabled c = record c { trace_enabled = enabled }

unfoldable pub apply_latency : ℤ → ℤ → NetworkConfig → NetworkConfig
apply_latency min max c = record c { latency_enabled = true; latency_min = min; latency_max = max }

unfoldable pub apply_packet_loss : Float64 → NetworkConfig → NetworkConfig
apply_packet_loss rate c = record c { loss_enabled = true; loss_rate = rate }

unfoldable pub apply_bandwidth : ℤ → NetworkConfig → NetworkConfig
apply_bandwidth bps c = record c { bandwidth_enabled = true; bandwidth_bps = bps }

unfoldable pub apply_duplication : Float64 → NetworkConfig → NetworkConfig
apply_duplication rate c = record c { duplicate_enabled = true; duplicate_rate = rate }

unfoldable pub apply_corruption : Float64 → NetworkConfig → NetworkConfig
apply_corruption rate c = record c { corrupt_enabled = true; corrupt_rate = rate }

unfoldable pub apply_partition : Str → Str → NetworkConfig → NetworkConfig
apply_partition a b c = record c {
  static_partitions = c.static_partitions ++ record { peer_a = a; peer_b = b } ∷ [];
}

unfoldable pub apply_pipe_bound : ℤ → NetworkConfig → NetworkConfig
apply_pipe_bound bound c = record c { pipe_bound_enabled = true; pipe_bound = bound }

unfoldable pub apply_listener_backlog : ℤ → NetworkConfig → NetworkConfig
apply_listener_backlog backlog c = record c {
  listener_backlog_enabled = true;
  listener_backlog = backlog;
}

unfoldable pub apply : NetworkOption → NetworkConfig → NetworkConfig
unfolding apply_seed apply_trace apply_latency apply_packet_loss apply_bandwidth apply_duplication
    apply_corruption apply_partition apply_pipe_bound apply_listener_backlog
apply (with_seed seed) c = apply_seed seed c
apply (with_trace enabled) c = apply_trace enabled c
apply (with_latency min max) c = apply_latency min max c
apply (with_packet_loss rate) c = apply_packet_loss rate c
apply (with_bandwidth bps) c = apply_bandwidth bps c
apply (with_duplication rate) c = apply_duplication rate c
apply (with_corruption rate) c = apply_corruption rate c
apply (with_partition a b) c = apply_partition a b c
apply (with_pipe_bound bound) c = apply_pipe_bound bound c
apply (with_listener_backlog backlog) c = apply_listener_backlog backlog c

-- The loop of NewNetwork over its options.
unfoldable pub apply_all : List (Option NetworkOption) → NetworkConfig → Called NetworkConfig
unfolding apply
apply_all [] c = returned c
apply_all (none ∷ opts) c = panics
apply_all (some o ∷ opts) c = apply_all opts (apply o c)

unfoldable pub valid_bandwidth_rate : ℤ → Bool
valid_bandwidth_rate bps = not (le_ℤ bps (pos 0))

unfoldable pub valid_pipe_bound : ℤ → Bool
valid_pipe_bound bound = not (le_ℤ bound (pos 0))

unfoldable pub valid_listener_backlog : ℤ → Bool
valid_listener_backlog backlog = not (le_ℤ backlog (pos 0))

unfoldable pub valid_pairs : List PartitionPair → Bool
valid_pairs [] = true
valid_pairs (p ∷ ps) = valid_pair p.peer_a p.peer_b && valid_pairs ps

-- A check that is only made if the option was given.
unfoldable pub if_given : Bool → Bool → Bool
if_given enabled valid = not enabled || valid

-- validate, as whether it returns.
unfoldable pub valid_config : NetworkConfig → Bool
unfolding if_given valid_bandwidth_rate valid_pipe_bound valid_listener_backlog
valid_config c =
    if_given c.loss_enabled (valid_rate c.loss_rate)
    && (if_given c.latency_enabled (valid_latency c.latency_min c.latency_max)
        && (if_given c.bandwidth_enabled (valid_bandwidth_rate c.bandwidth_bps)
            && (if_given c.duplicate_enabled (valid_rate c.duplicate_rate)
                && (if_given c.corrupt_enabled (valid_rate c.corrupt_rate)
                    && (if_given c.pipe_bound_enabled (valid_pipe_bound c.pipe_bound)
                        && (if_given c.listener_backlog_enabled
                              (valid_listener_backlog c.listener_backlog)
                            && valid_pairs c.static_partitions))))))

unfoldable pub validated : Called NetworkConfig → Called NetworkConfig
validated panics = panics
validated (returned c) = if valid_config c then returned c else panics

-- NewNetwork up to the validated configuration.
unfoldable pub configure : List (Option NetworkOption) → Called NetworkConfig
unfolding validated apply_all
configure opts = validated (apply_all opts default_config)
