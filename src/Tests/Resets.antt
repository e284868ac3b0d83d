-- ===== src/Tests/Resets.antt =====
-- The properties of Reset and of Trace at concrete inputs.
use netchaos.Base.{
  ℕ, ◌≡◌, refl, inl, inr, true, false, some, List, [], ◌∷◌, arith, get_elem?, if◌then◌else◌, All,
  map,
}
use netchaos.Rand.{Side, dialer, acceptor}
use netchaos.Faults
use netchaos.Peers.{PairKey, eq_pair}
use netchaos.Conn.{Link, new_conn_pair, peer, run_actions, reset_actions}
use netchaos.Reset.{
  ConnRef, Established, targets_of, established_pair, take_actions, target_actions, reset_targets,
  reset_pair,
}
use netchaos.Reset.Apart.{sides_of, take_actions-Underway, get_elem?-reset_targets}
use netchaos.Conn.Partway.{Covered}
use netchaos.Conn.Steps.{LinkReach}
use netchaos.Reset.Running.{Running, idle, here, then_step, establishing, at}
use netchaos.Reset.Resets.{AfterReset, idle-ResetReach}
use netchaos.Trace.{TraceHandle, side_number, trace}
use netchaos.Trace.Order.{swapped, trace-Reordered}
use netchaos.Trace.Content.{Ascending, Sided, recorded, of_direction, held, trace_lem}
use netchaos.Tests.{pair}
use netchaos.Tests.Conns.{plain}

abbrev link : Link
link = new_conn_pair plain plain

abbrev both : List ConnRef
both = at 0 dialer ∷ at 0 acceptor ∷ []

abbrev conns : List Established
conns = record { pair = pair; link = link } ∷ []

both-Covered : Covered (sides_of 0 both) link
unfolding sides_of peer
both-Covered dialer i = inl (inr (inl refl))
both-Covered acceptor i = inl (inl refl)

get_elem?-reset_targets_example :
    ((m : Link) × (get_elem? (take_actions (target_actions both) conns) 0
        ≡ some (record { pair = pair; link = m }))
      × LinkReach link m)
    × (get_elem? (reset_targets both conns) 0
        ≡ some (record { pair = pair; link = run_actions (reset_actions (sides_of 0 both)) link }))
get_elem?-reset_targets_example =
    get_elem?-reset_targets both conns (take_actions (target_actions both) conns) 0
      (record { pair = pair; link = link }) refl both-Covered
      (take_actions-Underway (target_actions both) conns)

-- One connection was established.
abbrev running : Running
running = record { net = established_pair pair link idle.net; resetting = [] }

idle-ResetReach_example :
    ((d : Established) × (get_elem? (reset_pair pair running.net).conns 0 ≡ some d)
      × AfterReset (eq_pair pair pair) d (record { pair = pair; link = link }))
    × ((m : PairKey)
        → targets_of m (reset_pair pair running.net).targets
          ≡ (if eq_pair pair m then [] else targets_of m running.net.targets))
unfolding established_pair
idle-ResetReach_example =
    idle-ResetReach running pair 0 (record { pair = pair; link = link })
      (then_step here (establishing pair plain plain idle)) refl refl

-- The recorders of one connection.
abbrev event : Faults.FaultEvent
event = record {
  seq = 0;
  partitioned = true;
  dropped = false;
  duplicated = false;
  corrupted = false;
  drawn = 0;
  serialized = 0;
  effective = 0;
  size = 3;
  corrupt_byte = 0;
  corrupt_bit = 0;
}

abbrev dialed : TraceHandle
dialed = record { ordinal = 4; side = dialer; events = event ∷ [] }

abbrev accepted : TraceHandle
accepted = record { ordinal = 4; side = acceptor; events = event ∷ record event { seq = 1 } ∷ [] }

abbrev earlier : TraceHandle
earlier = record { ordinal = 3; side = acceptor; events = event ∷ [] }

trace-Reordered_example :
    trace true (dialed ∷ earlier ∷ accepted ∷ []) ≡ trace true (earlier ∷ dialed ∷ accepted ∷ [])
unfolding side_number
trace-Reordered_example =
    trace-Reordered true (swapped dialed earlier (accepted ∷ []) (omega arith))

trace_lem_example :
    Ascending (trace true (accepted ∷ dialed ∷ []))
    × All Sided (trace true (accepted ∷ dialed ∷ []))
    × ((ordinal : ℕ) (side : Side)
        → map recorded (of_direction ordinal side (trace true (accepted ∷ dialed ∷ [])))
          ≡ held ordinal side (accepted ∷ dialed ∷ []))
    × (trace false (accepted ∷ dialed ∷ []) ≡ [])
trace_lem_example = trace_lem (accepted ∷ dialed ∷ [])
