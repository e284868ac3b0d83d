-- ===== src/Network/Listening.antt =====
-- netchaos.go's Listen, and its deregister with the part of listener.go's Close around it.
use netchaos.Base.{
  ℕ, zero, suc, ◌%◌, Bool, true, false, ◌&&◌, not, Option, none, some, List, [], ◌∷◌, ◌++◌, length,
  ◌==◌, if◌then◌else◌, ◌>>=◌,
}
use netchaos.Rand.{word}
use netchaos.Peers.{Str, eq_str}
use netchaos.Addr.{
  Ip, NetIp, parse_literal_ip, is_some, Split, split, invalid_address, invalid_port, split_addr,
  NetworkName, validate_network, wildcard_peer_name,
}
use netchaos.Book.{
  Book, owner_of, canonical_peer, IpResult, assigned, family_mismatch, space_exhausted, peer_ip,
  address_family,
}
use netchaos.Listener.{new_listener, mark_closed}
use netchaos.Network.{Socket, Registered, Network}
use netchaos.Network.Ports.{socket_at, search_port}

-- The number of the listener, or what is wrong. The last two are peerIPLocked's.
pub data ListenResult : Type 0 where
  listening : ℕ → ListenResult
  unknown_network : ListenResult
  bad_address : ListenResult
  bad_port : ListenResult
  address_in_use : ListenResult
  address_mismatch : ListenResult
  addresses_exhausted : ListenResult

unfoldable pub new_socket : NetworkName → Str → ℕ → Ip → ℕ → Socket
new_socket network peer port ip backlog = record {
  queue = new_listener backlog;
  network = network;
  peer = peer;
  port = port;
  ip = ip;
  deregistering = false;
}

-- The end of Listen: a listener is made and registered, if peerIPLocked gave an address.
unfoldable pub register : NetworkName → Str → ℕ → Network → IpResult × Book → ListenResult × Network
unfolding new_socket
register network peer port n (assigned ip, book) =
    let number = length n.sockets in
    (
      listening number,
      record n {
        book = book;
        sockets = n.sockets ++ new_socket network peer port ip n.listener_backlog ∷ [];
        listeners = record { peer = peer; port = port; socket = number } ∷ n.listeners;
      },
    )
register network peer port n (family_mismatch, book) = (address_mismatch, record n { book = book })
register network peer port n (space_exhausted, book) =
    (addresses_exhausted, record n { book = book })

unfoldable pub listen_port :
    ℕ → NetIp → NetworkName → Str → ℕ → Network → Option (ListenResult × Network)
listen_port fuel net network peer port n =
    if is_some (socket_at peer port n.listeners)
    then some (address_in_use, n)
    else peer_ip fuel net peer (address_family net network peer) n.book >>= λ r.
        some (register network peer port n r)

-- maxPort - listenPortBase + 1
abbrev pub port_attempts : ℕ
port_attempts = 57536

-- The port that was named, or the one that the search ends with.
unfoldable pub choose_port : Bool → ℕ → Str → Network → ℕ × Network
choose_port true port peer n = (port, n)
choose_port false port peer n =
    let r = search_port port_attempts n.listeners peer port n.next_listen_port in
    (r.0, record n { next_listen_port = r.1 })

unfoldable pub listen_canonical :
    ℕ → NetIp → NetworkName → Bool → ℕ → Str × Book → Network → Option (ListenResult × Network)
unfolding choose_port
listen_canonical fuel net network explicit port (peer, book) n =
    let c = choose_port explicit port peer (record n { book = book }) in
    listen_port fuel net network peer c.0 c.1

-- Whether a literal belongs to another peer than itself.
unfoldable pub other_owner : Str → Option Str → Bool
other_owner key none = false
other_owner key (some owner) = not (eq_str owner key)

unfoldable pub taken_literal : NetIp → Option Ip → Book → Bool
unfolding other_owner
taken_literal net none b = false
taken_literal net (some ip) b = other_owner (net.text ip) (owner_of (net.text ip) b.ip_owners)

unfoldable pub listen_peer :
    ℕ → NetIp → NetworkName → Bool → ℕ → Str × Network → Option (ListenResult × Network)
unfolding taken_literal listen_canonical
listen_peer fuel net network explicit port (peer, n) =
    if taken_literal net (parse_literal_ip net peer) n.book
    then some (address_in_use, n)
    else listen_canonical fuel net network explicit port (canonical_peer net peer n.book) n

-- A hostless address gets a name of its own.
unfoldable pub named_peer : Str → Network → Str × Network
named_peer peer n =
    if eq_str peer []
    then (
      wildcard_peer_name n.next_wildcard,
      record n { next_wildcard = suc n.next_wildcard % word },
    )
    else (peer, n)

unfoldable pub listen_split :
    ℕ → NetIp → NetworkName → Split → Network → Option (ListenResult × Network)
unfolding listen_peer named_peer
listen_split fuel net network invalid_address n = some (bad_address, n)
listen_split fuel net network invalid_port n = some (bad_port, n)
listen_split fuel net network (split peer port explicit) n =
    listen_peer fuel net network explicit port (named_peer peer n)

unfoldable pub listen : ℕ → NetIp → NetworkName → Str → Network → Option (ListenResult × Network)
unfolding listen_split
listen fuel net network laddr n =
    if validate_network network
    then listen_split fuel net network (split_addr net laddr) n
    else some (unknown_network, n)

unfoldable pub delete_entry : Str → ℕ → List Registered → List Registered
delete_entry peer port [] = []
delete_entry peer port (r ∷ rs) =
    let rest = delete_entry peer port rs in
    if eq_str r.peer peer && (r.port == port) then rest else r ∷ rest

unfoldable pub deregister : Str → ℕ → Network → Network
unfolding delete_entry
deregister peer port n = record n { listeners = delete_entry peer port n.listeners }

unfoldable pub set_socket : ℕ → Socket → List Socket → List Socket
set_socket s k [] = []
set_socket zero k (x ∷ xs) = k ∷ xs
set_socket (suc s) k (x ∷ xs) = x ∷ set_socket s k xs

unfoldable pub put_socket : ℕ → Socket → Network → Network
unfolding set_socket
put_socket s k n = record n { sockets = set_socket s k n.sockets }

-- Close's two writes: a listener that is open is marked, then it is deregistered.
unfoldable pub start_close : ℕ → Socket → Network → Network
unfolding put_socket mark_closed
start_close s k n =
    if k.queue.closed
    then n
    else put_socket s (record k { queue = mark_closed k.queue; deregistering = true }) n

unfoldable pub finish_close : ℕ → Socket → Network → Network
unfolding deregister put_socket
finish_close s k n = put_socket s (record k { deregistering = false }) (deregister k.peer k.port n)
