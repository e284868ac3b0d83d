-- ===== src/Tests/Networks.antt =====
-- The properties of a Network's construction, of Listen and of dials at concrete inputs.
use netchaos.Base.{◌≡◌, refl, false, Option, none, some, List, [], ◌∷◌, ◌==◌, arith}
use netchaos.Base.Int.{pos}
use netchaos.Base.Float.{one_float, nan}
use netchaos.Peers.{Str, eq_str, eq_pair, has_pair, delete_pair}
use netchaos.Addr.{
  tcp, split, parse_literal_ip, validate_network, split_addr, split_port, checked_port,
}
use netchaos.Addr.Text.{
  contains, last_index, split_host_port, bracketed, unbracketed, host_port, atoi, number,
  digits_value,
}
use netchaos.Book.{
  Book, new_book, owner_of, ip_of, own, canonical_peer, canonical_literal, synthetic4, candidate,
  advance_counter, assign, take_candidate, allocate, name_ip, literal_or_name_ip, peer_ip,
  address_family, literal_family,
}
use netchaos.Listener.{new_listener}
use netchaos.Partition.{returned, check_partition, remove_partition, bump_part_notify}
use netchaos.Options.{
  NetworkOption, with_seed, with_packet_loss, default_config, configure, apply_all, validated,
  valid_config, if_given, valid_pairs,
}
use netchaos.Options.Validation.{all_given, accepted, configure_lem}
use netchaos.Network.{Socket, Network, fresh_network, static_partitioned, built, new_network}
use netchaos.Network.Ports.{socket_at}
use netchaos.Network.Listening.{
  ListenResult, listening, new_socket, register, listen_port, choose_port, listen_canonical,
  listen_peer, named_peer, listen_split, listen, taken_literal,
}
use netchaos.Network.Registry.{same_at}
use netchaos.Network.Steps.{here, then_step, listening_at, new_network-NetworkReach}
use netchaos.Network.Answers.{Answered, listening_name, listen_lem}
use netchaos.Faults.{Shared, is_partitioned}
use netchaos.Dial.Lookup.{
  Target, find_listener, matches_at, matches, sockets_of, checking, waiting, passed, wait_turn,
  wait_on,
}
use netchaos.Dial.Choice.{swapped, matching, only, find_listener_lem}
use netchaos.Dial.Waiting
use netchaos.Dial.Waiting.{WaitReach, WaitStep, turning, healing, checking-WaitReach}
use netchaos.Tests.{shared, pair}
use netchaos.Tests.Books.{tagged, alice, first_ip}

-- A loss rate that is not valid, and a later one that is.
abbrev rescued : List (Option NetworkOption)
rescued =
    some (with_packet_loss nan) ∷ some (with_seed (pos 7)) ∷ some (with_packet_loss one_float) ∷ []

configure_lem_example : configure rescued ≡ accepted (all_given rescued)
configure_lem_example = configure_lem rescued

abbrev pub empty : Network
empty = fresh_network default_config

made : new_network tagged [] ≡ returned empty
unfolding new_network configure apply_all validated valid_config if_given default_config built
    static_partitioned valid_pairs
made = refl

-- "a:80" and "a:81"
abbrev pub one_addr : Str
one_addr = b'a' ∷ b':' ∷ b'8' ∷ b'0' ∷ []

abbrev other_addr : Str
other_addr = b'a' ∷ b':' ∷ b'8' ∷ b'1' ∷ []

abbrev pub book_after : Book
book_after = record {
  ip_owners = (record { key = 4 ∷ 198 ∷ 18 ∷ 0 ∷ 0 ∷ []; owner = alice }) ∷ [];
  peer_ips = (record { peer = alice; family = 4; ip = first_ip }) ∷ [];
  next_ipv4 = 1;
  next_ipv6 = 0;
}

abbrev one_socket : Socket
one_socket = record {
  queue = new_listener 128;
  network = tcp;
  peer = alice;
  port = 80;
  ip = first_ip;
  deregistering = false;
}

abbrev other_socket : Socket
other_socket = record one_socket { port = 81 }

abbrev with_one : Network
with_one = record empty {
  book = book_after;
  sockets = one_socket ∷ [];
  listeners = record { peer = alice; port = 80; socket = 0 } ∷ [];
}

abbrev pub with_both : Network
with_both = record with_one {
  sockets = one_socket ∷ other_socket ∷ [];
  listeners =
      record { peer = alice; port = 81; socket = 1 }
      ∷ record { peer = alice; port = 80; socket = 0 }
      ∷ [];
}

listened : listen 1 tagged tcp one_addr empty ≡ some (listening 0, with_one)
unfolding listen listen_split named_peer listen_peer taken_literal listen_canonical choose_port
    listen_port register new_socket validate_network split_addr split_port checked_port
    parse_literal_ip contains last_index split_host_port bracketed unbracketed host_port atoi number
    digits_value canonical_peer canonical_literal address_family literal_family peer_ip
    literal_or_name_ip name_ip ip_of allocate take_candidate candidate advance_counter owner_of
    assign own synthetic4 new_book fresh_network default_config socket_at eq_str
listened = refl

listened_again : listen 1 tagged tcp other_addr with_one ≡ some (listening 1, with_both)
unfolding listen listen_split named_peer listen_peer taken_literal listen_canonical choose_port
    listen_port register new_socket validate_network split_addr split_port checked_port
    parse_literal_ip contains last_index split_host_port bracketed unbracketed host_port atoi number
    digits_value canonical_peer canonical_literal address_family literal_family peer_ip
    literal_or_name_ip name_ip ip_of owner_of fresh_network default_config socket_at eq_str
listened_again = refl

new_network-NetworkReach_example :
    (socket_at alice 80 with_both.listeners ≡ some 0) × (same_at alice 80 alice 81 ≡ (0 == 1))
unfolding new_listener
new_network-NetworkReach_example =
    new_network-NetworkReach tagged [] empty with_both 0 1 one_socket other_socket made
      (then_step
        (then_step here (listening_at 1 tcp one_addr empty with_one (listening 0) listened))
        (listening_at 1 tcp other_addr with_one with_both (listening 1) listened_again))
      refl refl refl refl

-- "a", without a port, at a Network with one listener.
without_port : split_addr tagged alice ≡ split alice 0 false
unfolding split_addr split_port checked_port contains last_index split_host_port bracketed
    unbracketed host_port atoi number digits_value
without_port = refl

listen_lem_example :
    (x : ListenResult × Network) × (listen 18446744073709551616 tagged tcp alice with_one ≡ some x)
    × Answered tagged with_one (listening_name alice with_one) x
unfolding fresh_network socket_at eq_str canonical_peer canonical_literal parse_literal_ip
    validate_network default_config new_book
listen_lem_example =
    listen_lem 18446744073709551616 tagged tcp alice alice 0 with_one 8000
      (omega arith, omega arith) (omega arith) (omega arith, omega arith) refl without_port
      (omega arith, omega arith) refl

-- A dial that waits on the pair of "a" and "b", which is healed.
abbrev parted : Shared
parted = record shared { partitions = pair ∷ [] }

abbrev healed : Shared
healed = record shared { part_notify = 1 }

healing_pair : remove_partition pair parted ≡ healed
unfolding remove_partition is_partitioned has_pair delete_pair eq_pair eq_str bump_part_notify
healing_pair = refl

waited : WaitReach pair (parted, checking) (remove_partition pair parted, waiting 0)
unfolding wait_turn wait_on check_partition is_partitioned has_pair eq_pair eq_str
waited =
    Waiting.then_step (Waiting.then_step Waiting.here (turning parted))
      (healing pair parted (waiting 0))

checking-WaitReach_example :
    WaitStep pair (remove_partition pair parted, waiting 0) (remove_partition pair parted, checking)
    × (wait_turn pair (remove_partition pair parted) ≡ passed)
unfolding remove_partition is_partitioned has_pair delete_pair eq_pair eq_str bump_part_notify
checking-WaitReach_example =
    checking-WaitReach pair parted (remove_partition pair parted) 0 waited refl

-- A dial of "a" without a port, where two listeners match.
abbrev target : Target
target = record {
  network = tcp;
  peer = alice;
  port = 0;
  explicit = false;
  ip = none;
  local_name = none;
}

find_listener_lem_example :
    find_listener tagged target (0 ∷ 1 ∷ []) with_both
    ≡ only (
        matching
          (matches_at (matches tagged tcp alice none) with_both.sockets)
          (sockets_of alice with_both.listeners))
unfolding sockets_of eq_str
find_listener_lem_example =
    find_listener_lem tagged target (0 ∷ 1 ∷ []) with_both refl (swapped 1 0 [])
