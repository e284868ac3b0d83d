-- ===== src/Dial/Whole.antt =====
-- DialContext of netchaos.go as a whole, for a dial that nothing comes in between of.
use netchaos.Base.{ℕ, Bool, Option, none, some, List, get_elem?, ◌>>=◌}
use netchaos.Peers.{Str, PairKey}
use netchaos.Addr.{NetIp, NetworkName}
use netchaos.Book.{address_family}
use netchaos.Network.{Socket, Network}
use netchaos.Network.Listening.{put_socket}
use netchaos.Dial.{Dialing, DialResult, refused, establish}
use netchaos.Dial.Lookup.{
  Target, DialError, Checked, failed, ready, check_dial, DialWait, checking, waiting, passed,
  cancelled, wait_turn, dial_pair, find_listener,
}

-- `blocked` is a dial that waits for a Heal, with the channel.
pub data DialAnswer : Type 0 where
  failed_check : DialError → DialAnswer
  blocked : ℕ → DialAnswer
  answered : DialResult → DialAnswer

unfoldable pub dialing_at : Socket → Network → Dialing
dialing_at k n = record { listener = k.queue; next_ordinal = n.next_ordinal; book = n.book }

unfoldable pub after_dialing : ℕ → Socket → Network → DialResult × Dialing → DialAnswer × Network
unfolding put_socket
after_dialing s k n (r, d) = (
  answered r,
  put_socket s (record k { queue = d.listener })
      (record n { next_ordinal = d.next_ordinal; book = d.book }),
)

-- From the listener that was chosen. `c` is the connection.
unfoldable pub connect : ℕ → NetIp → Target → ℕ → Option ℕ → Network → Option (DialAnswer × Network)
unfolding dialing_at after_dialing
connect fuel net t c none n = some (answered refused, n)
connect fuel net t c (some s) n = get_elem? n.sockets s >>= λ k.
    establish fuel net t.local_name (address_family net k.network k.peer) c (dialing_at k n)
    >>= λ r. some (after_dialing s k n r)

unfoldable pub past_wait :
    ℕ → NetIp → Target → ℕ → List ℕ → DialWait → Network → Option (DialAnswer × Network)
unfolding connect find_listener
past_wait fuel net t c range passed n = connect fuel net t c (find_listener net t range n) n
past_wait fuel net t c range (waiting generation) n = some (blocked generation, n)
past_wait fuel net t c range checking n = none
past_wait fuel net t c range cancelled n = none

unfoldable pub first_wait : Option PairKey → Network → DialWait
unfolding wait_turn
first_wait none n = passed
first_wait (some k) n = wait_turn k n.shared

unfoldable pub dial_checked :
    ℕ → NetIp → ℕ → List ℕ → Checked × Network → Option (DialAnswer × Network)
unfolding past_wait first_wait dial_pair
dial_checked fuel net c range (failed e, n) = some (failed_check e, n)
dial_checked fuel net c range (ready t, n) =
    past_wait fuel net t c range (first_wait (dial_pair t) n) n

-- `done` is whether the context is done at the start, `name` the name that it holds.
unfoldable pub dial_context :
    ℕ
    → NetIp
    → Bool
    → Option Str
    → NetworkName
    → Str
    → ℕ
    → List ℕ
    → Network
    → Option (DialAnswer × Network)
unfolding dial_checked check_dial
dial_context fuel net done name network addr c range n =
    dial_checked fuel net c range (check_dial net done name network addr n)
