-- ===== src/Options/Validation.antt =====
-- NewNetwork's options: which configurations it accepts.
use netchaos.Base.{
  Option, none, some, List, [], ◌∷◌, ◌++◌, ◌≡◌, refl, sym, ap, ◌∙◌, append-nil, append_assoc,
  if◌then◌else◌, ◌>>=◌,
}
use netchaos.Partition.{Called, returned, panics}
use netchaos.Options.{
  NetworkConfig, NetworkOption, with_seed, with_trace, with_latency, with_packet_loss,
  with_bandwidth, with_duplication, with_corruption, with_partition, with_pipe_bound,
  with_listener_backlog, default_config, apply, apply_seed, apply_trace, apply_latency,
  apply_packet_loss, apply_bandwidth, apply_duplication, apply_corruption, apply_partition,
  apply_pipe_bound, apply_listener_backlog, apply_all, valid_config, validated, configure,
}
use netchaos.Options.Last.{
  or_earlier, last_given, given_or, seed_of, trace_enabled_of, latency_enabled_of, latency_min_of,
  latency_max_of, loss_enabled_of, loss_rate_of, bandwidth_enabled_of, bandwidth_bps_of,
  duplicate_enabled_of, duplicate_rate_of, corrupt_enabled_of, corrupt_rate_of,
  pipe_bound_enabled_of, pipe_bound_of, listener_backlog_enabled_of, listener_backlog_of,
  partitions_of, all_partitions, overridden, final_config,
}

set_by : NetworkOption → NetworkConfig → NetworkConfig
unfolding given_or
set_by o c = record {
  seed = given_or c.seed (seed_of o);
  trace_enabled = given_or c.trace_enabled (trace_enabled_of o);
  latency_enabled = given_or c.latency_enabled (latency_enabled_of o);
  latency_min = given_or c.latency_min (latency_min_of o);
  latency_max = given_or c.latency_max (latency_max_of o);
  loss_enabled = given_or c.loss_enabled (loss_enabled_of o);
  loss_rate = given_or c.loss_rate (loss_rate_of o);
  bandwidth_enabled = given_or c.bandwidth_enabled (bandwidth_enabled_of o);
  bandwidth_bps = given_or c.bandwidth_bps (bandwidth_bps_of o);
  duplicate_enabled = given_or c.duplicate_enabled (duplicate_enabled_of o);
  duplicate_rate = given_or c.duplicate_rate (duplicate_rate_of o);
  corrupt_enabled = given_or c.corrupt_enabled (corrupt_enabled_of o);
  corrupt_rate = given_or c.corrupt_rate (corrupt_rate_of o);
  pipe_bound_enabled = given_or c.pipe_bound_enabled (pipe_bound_enabled_of o);
  pipe_bound = given_or c.pipe_bound (pipe_bound_of o);
  listener_backlog_enabled = given_or c.listener_backlog_enabled (listener_backlog_enabled_of o);
  listener_backlog = given_or c.listener_backlog (listener_backlog_of o);
  static_partitions = c.static_partitions ++ partitions_of o;
}

unpartitioned : (c : NetworkConfig) → c ≡ record c { static_partitions = c.static_partitions ++ [] }
unpartitioned c = λ i. record c { static_partitions = sym (append-nil c.static_partitions) i }

apply-set_by : (o : NetworkOption) (c : NetworkConfig) → apply o c ≡ set_by o c
unfolding apply apply_seed apply_trace apply_latency apply_packet_loss apply_bandwidth
    apply_duplication apply_corruption apply_partition apply_pipe_bound apply_listener_backlog
    set_by given_or partitions_of seed_of trace_enabled_of latency_enabled_of latency_min_of
    latency_max_of loss_enabled_of loss_rate_of bandwidth_enabled_of bandwidth_bps_of
    duplicate_enabled_of duplicate_rate_of corrupt_enabled_of corrupt_rate_of pipe_bound_enabled_of
    pipe_bound_of listener_backlog_enabled_of listener_backlog_of
apply-set_by (with_seed x) c = unpartitioned (apply (with_seed x) c)
apply-set_by (with_trace x) c = unpartitioned (apply (with_trace x) c)
apply-set_by (with_latency x y) c = unpartitioned (apply (with_latency x y) c)
apply-set_by (with_packet_loss x) c = unpartitioned (apply (with_packet_loss x) c)
apply-set_by (with_bandwidth x) c = unpartitioned (apply (with_bandwidth x) c)
apply-set_by (with_duplication x) c = unpartitioned (apply (with_duplication x) c)
apply-set_by (with_corruption x) c = unpartitioned (apply (with_corruption x) c)
apply-set_by (with_partition x y) c = refl
apply-set_by (with_pipe_bound x) c = unpartitioned (apply (with_pipe_bound x) c)
apply-set_by (with_listener_backlog x) c = unpartitioned (apply (with_listener_backlog x) c)

given_or-earlier :
    {A : Type 0} (start : A) (x y : Option A)
    → given_or (given_or start y) x ≡ given_or start (or_earlier x y)
unfolding given_or or_earlier
given_or-earlier start none y = refl
given_or-earlier start (some x) y = refl

overridden-set_by :
    (o : NetworkOption) (os : List NetworkOption) (c : NetworkConfig)
    → overridden (set_by o c) os ≡ overridden c (o ∷ os)
unfolding overridden set_by last_given all_partitions
overridden-set_by o os c = λ i. record {
  seed = given_or-earlier c.seed (last_given seed_of os) (seed_of o) i;
  trace_enabled =
      given_or-earlier c.trace_enabled (last_given trace_enabled_of os) (trace_enabled_of o) i;
  latency_enabled =
      given_or-earlier c.latency_enabled (last_given latency_enabled_of os) (latency_enabled_of o)
        i;
  latency_min = given_or-earlier c.latency_min (last_given latency_min_of os) (latency_min_of o) i;
  latency_max = given_or-earlier c.latency_max (last_given latency_max_of os) (latency_max_of o) i;
  loss_enabled =
      given_or-earlier c.loss_enabled (last_given loss_enabled_of os) (loss_enabled_of o) i;
  loss_rate = given_or-earlier c.loss_rate (last_given loss_rate_of os) (loss_rate_of o) i;
  bandwidth_enabled =
      given_or-earlier c.bandwidth_enabled (last_given bandwidth_enabled_of os)
        (bandwidth_enabled_of o) i;
  bandwidth_bps =
      given_or-earlier c.bandwidth_bps (last_given bandwidth_bps_of os) (bandwidth_bps_of o) i;
  duplicate_enabled =
      given_or-earlier c.duplicate_enabled (last_given duplicate_enabled_of os)
        (duplicate_enabled_of o) i;
  duplicate_rate =
      given_or-earlier c.duplicate_rate (last_given duplicate_rate_of os) (duplicate_rate_of o) i;
  corrupt_enabled =
      given_or-earlier c.corrupt_enabled (last_given corrupt_enabled_of os) (corrupt_enabled_of o)
        i;
  corrupt_rate =
      given_or-earlier c.corrupt_rate (last_given corrupt_rate_of os) (corrupt_rate_of o) i;
  pipe_bound_enabled =
      given_or-earlier c.pipe_bound_enabled (last_given pipe_bound_enabled_of os)
        (pipe_bound_enabled_of o) i;
  pipe_bound = given_or-earlier c.pipe_bound (last_given pipe_bound_of os) (pipe_bound_of o) i;
  listener_backlog_enabled =
      given_or-earlier c.listener_backlog_enabled (last_given listener_backlog_enabled_of os)
        (listener_backlog_enabled_of o) i;
  listener_backlog =
      given_or-earlier c.listener_backlog (last_given listener_backlog_of os)
        (listener_backlog_of o) i;
  static_partitions = append_assoc c.static_partitions (partitions_of o) (all_partitions os) i;
}

overridden-[] : (c : NetworkConfig) → overridden c [] ≡ c
unfolding overridden last_given given_or all_partitions
overridden-[] c = λ i. record c { static_partitions = append-nil c.static_partitions i }

-- The options of a list without a nil.
unfoldable pub all_given : List (Option NetworkOption) → Option (List NetworkOption)
all_given [] = some []
all_given (none ∷ opts) = none
all_given (some o ∷ opts) = all_given opts >>= λ os. some (o ∷ os)

unfoldable pub accepted : Option (List NetworkOption) → Called NetworkConfig
unfolding final_config
accepted none = panics
accepted (some os) = if valid_config (final_config os) then returned (final_config os) else panics

outcome : NetworkConfig → Option (List NetworkOption) → Called NetworkConfig
outcome c none = panics
outcome c (some os) = returned (overridden c os)

outcome-apply :
    (o : NetworkOption) (r : Option (List NetworkOption)) (c : NetworkConfig)
    → outcome (apply o c) r ≡ outcome c (r >>= λ os. some (o ∷ os))
unfolding outcome
outcome-apply o none c = refl
outcome-apply o (some os) c =
    ap (λ d. returned (overridden d os)) (apply-set_by o c) ∙ ap returned (overridden-set_by o os c)

apply_all_lem :
    (opts : List (Option NetworkOption)) (c : NetworkConfig)
    → apply_all opts c ≡ outcome c (all_given opts)
unfolding apply_all all_given outcome
apply_all_lem [] c = ap returned (sym (overridden-[] c))
apply_all_lem (none ∷ opts) c = refl
apply_all_lem (some o ∷ opts) c =
    apply_all_lem opts (apply o c) ∙ outcome-apply o (all_given opts) c

validated-outcome :
    (r : Option (List NetworkOption)) → validated (outcome default_config r) ≡ accepted r
unfolding validated outcome accepted final_config
validated-outcome none = refl
validated-outcome (some os) = refl

-- NewNetwork reads its options as a whole: it panics if one of them is nil, and otherwise each
-- setting is what the last option that gives it says, or the default if none does, the static
-- partitions are all that were named, in order, and it panics exactly if this final configuration
-- is invalid, whatever the earlier options of a kind said.
pub configure_lem :
    (opts : List (Option NetworkOption)) → configure opts ≡ accepted (all_given opts)
unfolding configure
configure_lem opts =
    ap validated (apply_all_lem opts default_config) ∙ validated-outcome (all_given opts)
