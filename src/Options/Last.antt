-- ===== src/Options/Last.antt =====
-- NewNetwork's options: what the configuration holds once every option has been applied.
--
-- The description reads the options from the back: `last_given` is what the last option of a kind
-- says, whatever the earlier ones of that kind said.
use netchaos.Base.{Bool, true, Option, none, some, List, [], ◌∷◌, ◌++◌}
use netchaos.Base.Int.{ℤ}
use netchaos.Base.Float.{Float64}
use netchaos.Options.{
  PartitionPair, NetworkConfig, NetworkOption, with_seed, with_trace, with_latency,
  with_packet_loss, with_bandwidth, with_duplication, with_corruption, with_partition,
  with_pipe_bound, with_listener_backlog, default_config,
}

unfoldable pub or_earlier : {A : Type 0} → Option A → Option A → Option A
or_earlier none y = y
or_earlier (some x) y = some x

unfoldable pub last_given :
    {A : Type 0} → (NetworkOption → Option A) → List NetworkOption → Option A
unfolding or_earlier
last_given select [] = none
last_given select (o ∷ os) = or_earlier (last_given select os) (select o)

unfoldable pub given_or : {A : Type 0} → A → Option A → A
given_or start none = start
given_or start (some x) = x

-- What an option gives a field.
unfoldable pub seed_of : NetworkOption → Option ℤ
seed_of (with_seed x) = some x
seed_of o = none

unfoldable pub trace_enabled_of : NetworkOption → Option Bool
trace_enabled_of (with_trace x) = some x
trace_enabled_of o = none

unfoldable pub latency_enabled_of : NetworkOption → Option Bool
latency_enabled_of (with_latency x y) = some true
latency_enabled_of o = none

unfoldable pub latency_min_of : NetworkOption → Option ℤ
latency_min_of (with_latency x y) = some x
latency_min_of o = none

unfoldable pub latency_max_of : NetworkOption → Option ℤ
latency_max_of (with_latency x y) = some y
latency_max_of o = none

unfoldable pub loss_enabled_of : NetworkOption → Option Bool
loss_enabled_of (with_packet_loss x) = some true
loss_enabled_of o = none

unfoldable pub loss_rate_of : NetworkOption → Option Float64
loss_rate_of (with_packet_loss x) = some x
loss_rate_of o = none

unfoldable pub bandwidth_enabled_of : NetworkOption → Option Bool
bandwidth_enabled_of (with_bandwidth x) = some true
bandwidth_enabled_of o = none

unfoldable pub bandwidth_bps_of : NetworkOption → Option ℤ
bandwidth_bps_of (with_bandwidth x) = some x
bandwidth_bps_of o = none

unfoldable pub duplicate_enabled_of : NetworkOption → Option Bool
duplicate_enabled_of (with_duplication x) = some true
duplicate_enabled_of o = none

unfoldable pub duplicate_rate_of : NetworkOption → Option Float64
duplicate_rate_of (with_duplication x) = some x
duplicate_rate_of o = none

unfoldable pub corrupt_enabled_of : NetworkOption → Option Bool
corrupt_enabled_of (with_corruption x) = some true
corrupt_enabled_of o = none

unfoldable pub corrupt_rate_of : NetworkOption → Option Float64
corrupt_rate_of (with_corruption x) = some x
corrupt_rate_of o = none

unfoldable pub pipe_bound_enabled_of : NetworkOption → Option Bool
pipe_bound_enabled_of (with_pipe_bound x) = some true
pipe_bound_enabled_of o = none

unfoldable pub pipe_bound_of : NetworkOption → Option ℤ
pipe_bound_of (with_pipe_bound x) = some x
pipe_bound_of o = none

unfoldable pub listener_backlog_enabled_of : NetworkOption → Option Bool
listener_backlog_enabled_of (with_listener_backlog x) = some true
listener_backlog_enabled_of o = none

unfoldable pub listener_backlog_of : NetworkOption → Option ℤ
listener_backlog_of (with_listener_backlog x) = some x
listener_backlog_of o = none

unfoldable pub partitions_of : NetworkOption → List PartitionPair
partitions_of (with_partition a b) = record { peer_a = a; peer_b = b } ∷ []
partitions_of o = []

unfoldable pub all_partitions : List NetworkOption → List PartitionPair
unfolding partitions_of
all_partitions [] = []
all_partitions (o ∷ os) = partitions_of o ++ all_partitions os

-- Each field by the last option that gives it, else as it was; every partition, in order.
unfoldable pub overridden : NetworkConfig → List NetworkOption → NetworkConfig
unfolding given_or last_given all_partitions seed_of trace_enabled_of latency_enabled_of
    latency_min_of latency_max_of loss_enabled_of loss_rate_of bandwidth_enabled_of bandwidth_bps_of
    duplicate_enabled_of duplicate_rate_of corrupt_enabled_of corrupt_rate_of pipe_bound_enabled_of
    pipe_bound_of listener_backlog_enabled_of listener_backlog_of
overridden c opts = record {
  seed = given_or c.seed (last_given seed_of opts);
  trace_enabled = given_or c.trace_enabled (last_given trace_enabled_of opts);
  latency_enabled = given_or c.latency_enabled (last_given latency_enabled_of opts);
  latency_min = given_or c.latency_min (last_given latency_min_of opts);
  latency_max = given_or c.latency_max (last_given latency_max_of opts);
  loss_enabled = given_or c.loss_enabled (last_given loss_enabled_of opts);
  loss_rate = given_or c.loss_rate (last_given loss_rate_of opts);
  bandwidth_enabled = given_or c.bandwidth_enabled (last_given bandwidth_enabled_of opts);
  bandwidth_bps = given_or c.bandwidth_bps (last_given bandwidth_bps_of opts);
  duplicate_enabled = given_or c.duplicate_enabled (last_given duplicate_enabled_of opts);
  duplicate_rate = given_or c.duplicate_rate (last_given duplicate_rate_of opts);
  corrupt_enabled = given_or c.corrupt_enabled (last_given corrupt_enabled_of opts);
  corrupt_rate = given_or c.corrupt_rate (last_given corrupt_rate_of opts);
  pipe_bound_enabled = given_or c.pipe_bound_enabled (last_given pipe_bound_enabled_of opts);
  pipe_bound = given_or c.pipe_bound (last_given pipe_bound_of opts);
  listener_backlog_enabled =
      given_or c.listener_backlog_enabled (last_given listener_backlog_enabled_of opts);
  listener_backlog = given_or c.listener_backlog (last_given listener_backlog_of opts);
  static_partitions = c.static_partitions ++ all_partitions opts;
}

unfoldable pub final_config : List NetworkOption → NetworkConfig
unfolding overridden
final_config opts = overridden default_config opts
