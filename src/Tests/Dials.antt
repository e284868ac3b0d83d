-- ===== src/Tests/Dials.antt =====
-- The properties of the connections that dials make at concrete inputs.
use netchaos.Base.{
  ℕ, ◌-◌, ◌≡◌, refl, false, none, some, Option, ◌>>=◌, List, [], ◌∷◌, ◌++◌, map, arith,
}
use netchaos.Peers.{Str, eq_str, has_pair}
use netchaos.Addr.{
  parse_literal_ip, peer_name, split_addr, split_port, checked_port, validate_network, NetIp, tcp,
}
use netchaos.Addr.Text.{
  last_index, split_host_port, bracketed, unbracketed, host_port, atoi, number, digits_value,
  contains, decimal,
}
use netchaos.Book.{
  canonical_peer, canonical_literal, owner_of, peer_ip, literal_or_name_ip, name_ip, ip_of,
  allocate, take_candidate, candidate, advance_counter, assign, own, synthetic4, address_family,
  literal_family, new_book,
}
use netchaos.Dial.{establish, establish_reserved, hand_over, local_name, established}
use netchaos.Dial.Lookup.{
  check_dial, check_split, resolve_target, canonical_name, dial_pair, wait_turn, wait_on,
  find_listener, choose_listener, exact, matches_at, matches, is_tcp, same_ip,
}
use netchaos.Dial.Whole.{
  dial_checked, past_wait, first_wait, connect, dialing_at, after_dialing, answered,
}
use netchaos.Listener.{reserve, fill, new_listener}
use netchaos.Network.Ports.{socket_at}
use netchaos.Partition.{check_partition}
use netchaos.Base.Float.{lt_float, le_float, ulp53}
use netchaos.Rand.{
  dialer, loss, duplicate, word, mul_lo, mul_hi, bernoulli, next, bounded_uint64, uniform_duration,
  derive_stream,
}
use netchaos.Faults.{FaultEvent, is_partitioned, record_event}
use netchaos.Pipe.State.{
  Pipe, evaluator, trace_event, add_event, arm_latency_timer, head_timer, fire_at,
  arm_latency_for_append,
}
use netchaos.Pipe.Evaluate.{
  evaluate, current, draw_faults, trial, draw_latency, after_draws, deliver_unit, corrupt_unit,
  send_unit, transmit, clamp_release, schedule, install_fault_policy,
}
use netchaos.Pipe.Ops.{wrote, try_write, admit, run_deliver, new_pipe}
use netchaos.Pipe.Determinism.{Run, done, taking, decided}
use netchaos.Network.{Network, fresh_network}
use netchaos.Dial.Connection.{network_policy, stream_of, direction_pipe, new_recorder}
use netchaos.Pipe.Growth.{growths, sizes, sent_sizes}
use netchaos.Dial.Foreseen.{HasPattern, key_bytes, foreseen, direction_pipe-Run}
use netchaos.Options.{default_config}
use netchaos.Tests.{shared, pair, loaded}
use netchaos.Tests.Networks.{empty, with_both, one_addr}
use netchaos.Tests.Books.{tagged, alice}
use netchaos.Dial.Ordinals.{Ordinals}
use netchaos.Dial.World.{World, dial_world}
use netchaos.Reset.Running.{idle}
use netchaos.Addr.Errors.{ErrAddr, err_addr, addr_string, err_addr-join}

abbrev keep : List ℕ → List ℕ
keep bytes = bytes

-- Every draw is 2 ^ 64 - 1.
abbrev highest : List ℕ → ℕ → ℕ
highest key i = word - 1

abbrev small : Network
small = record empty { pipe_bound = 8 }

abbrev fresh_pipe : Pipe
fresh_pipe = direction_pipe keep highest small 0 dialer pair

abbrev written_pipe : Pipe
written_pipe = record loaded { deliver = evaluator (network_policy pair) }

taken : try_write 1 shared 0 (7 ∷ 8 ∷ []) fresh_pipe ≡ some (wrote 2, written_pipe)
unfolding try_write admit run_deliver direction_pipe evaluate is_partitioned has_pair current
    draw_faults trial bernoulli next le_float lt_float draw_latency uniform_duration bounded_uint64
    mul_hi mul_lo after_draws deliver_unit corrupt_unit send_unit transmit clamp_release schedule
    arm_latency_for_append trace_event add_event record_event arm_latency_timer head_timer fire_at
    ulp53 fresh_network default_config stream_of derive_stream network_policy install_fault_policy
    new_pipe new_recorder
taken = refl

taking_one : Run (shared ∷ []) fresh_pipe written_pipe
taking_one = taking 1 shared 0 2 (7 ∷ 8 ∷ []) taken (done written_pipe)

direction_pipe-Run_example :
    (seed : ℕ) × HasPattern small.seed seed
    × (added : List FaultEvent) × (written_pipe.trace ≡ some added)
    × (map decided added
        ≡ foreseen pair
            (shared ∷ [])
            (highest (keep (key_bytes seed 0 dialer loss)))
            0
            (highest (keep (key_bytes seed 0 dialer duplicate)))
            0)
    × (growths taking_one ≡ sent_sizes (map decided added) (sizes taking_one))
unfolding fresh_network default_config
direction_pipe-Run_example =
    direction_pipe-Run keep highest small 0 dialer pair (shared ∷ []) written_pipe
      (λ key i. omega arith) refl taking_one

-- A dialer named "b", and a listener at the port that it names.
abbrev world : World
world = record { network = with_both; resets = idle.net; traces = [] }

abbrev bob : Option Str
bob = some (b'b' ∷ [])

dial_establishes :
    (dial_world keep highest 18446744073709551616 tagged false bob tcp one_addr [] world >>= λ r.
    some r.0)
    ≡ some (answered (established 0))
unfolding dial_world dial_checked check_dial check_split resolve_target canonical_name
    canonical_peer canonical_literal owner_of parse_literal_ip peer_name split_addr split_port
    checked_port contains last_index split_host_port bracketed unbracketed host_port atoi number
    digits_value validate_network eq_str past_wait first_wait dial_pair wait_turn wait_on
    check_partition is_partitioned has_pair find_listener choose_listener exact matches_at matches
    socket_at is_tcp same_ip connect dialing_at after_dialing establish establish_reserved reserve
    hand_over fill new_listener local_name peer_ip literal_or_name_ip name_ip ip_of allocate
    take_candidate candidate advance_counter assign own synthetic4 address_family literal_family
    fresh_network default_config new_book
dial_establishes = refl

abbrev names_only : NetIp
names_only = record { parse = λ s. none; text = λ ip. [] }

err_addr-join_example :
    (a : ErrAddr) × (err_addr names_only (alice ++ b':' ∷ decimal 8080) ≡ some a)
    × (addr_string a ≡ alice ++ b':' ∷ decimal 8080)
unfolding contains
err_addr-join_example =
    err_addr-join names_only alice 8080 (refl, refl, refl) (omega arith) (omega arith) refl
