-- ===== src/Dial/Lookup.antt =====
-- DialContext of netchaos.go, ahead of the claim of a slot: its checks, its wait for a partition to
-- heal, and the choice of the listener.
use netchaos.Base.{
  ℕ, Bool, true, false, ◌&&◌, ◌||◌, Option, none, some, List, [], ◌∷◌, ◌++◌, get_elem?, ◌==◌,
  if◌then◌else◌, ◌>>=◌,
}
use netchaos.Peers.{Str, eq_str, PairKey, new_pair_key}
use netchaos.Faults.{Shared}
use netchaos.Addr.{
  Ip, v4, v6, NetIp, mapped_prefix, parse_literal_ip, Split, split, invalid_address, invalid_port,
  split_addr, peer_name, NetworkName, tcp, tcp4, tcp6, udp, udp4, udp6, other, validate_network,
}
use netchaos.Book.{Book, canonical_peer, address_family}
use netchaos.Partition.{check_partition}
use netchaos.Network.{Socket, Registered, Network}
use netchaos.Network.Ports.{socket_at}

-- net.IP.Equal: an IPv4 address is the IPv6 address that maps it.
unfoldable pub ip_equal : Ip → Ip → Bool
unfolding eq_str
ip_equal (v4 a) (v4 b) = eq_str a b
ip_equal (v4 a) (v6 b zone) = eq_str (mapped_prefix ++ a) b
ip_equal (v6 a zone) (v4 b) = eq_str a (mapped_prefix ++ b)
ip_equal (v6 a zone) (v6 b zone') = eq_str a b

unfoldable pub is_tcp : NetworkName → Bool
is_tcp tcp = true
is_tcp tcp4 = false
is_tcp tcp6 = false
is_tcp udp = false
is_tcp udp4 = false
is_tcp udp6 = false
is_tcp (other s) = false

unfoldable pub same_ip : Option Ip → Ip → Bool
unfolding ip_equal
same_ip none ip = true
same_ip (some target) ip = ip_equal ip target

-- The closure `matches`, of a candidate that is not nil.
unfoldable pub matches : NetIp → NetworkName → Str → Option Ip → Socket → Bool
unfolding is_tcp same_ip
matches net network peer target k =
    (is_tcp network || (address_family net network peer == address_family net k.network k.peer))
    && same_ip target k.ip

unfoldable pub matches_at : (Socket → Bool) → List Socket → ℕ → Bool
matches_at test sockets s = elim (get_elem? sockets s) [ none ↦ false | some k ↦ test k ]

-- The loop over the peer's listeners: the only one that matches. `found` is `l`.
unfoldable pub sole : (ℕ → Bool) → Option ℕ → List ℕ → Option ℕ
sole test found [] = found
sole test none (s ∷ ss) = if test s then sole test (some s) ss else sole test none ss
sole test (some l) (s ∷ ss) = if test s then none else sole test (some l) ss

unfoldable pub exact : (ℕ → Bool) → Option ℕ → Option ℕ
exact test none = none
exact test (some s) = if test s then some s else none

-- Go ranges over a map in no fixed order: `range` is the peer's listeners in the order it takes.
unfoldable pub choose_listener : (ℕ → Bool) → Bool → Option ℕ → List ℕ → Option ℕ
unfolding exact sole
choose_listener test true at_port range = exact test at_port
choose_listener test false at_port range = sole test none range

-- The sockets of a peer, in the order of the entries.
unfoldable pub sockets_of : Str → List Registered → List ℕ
sockets_of peer [] = []
sockets_of peer (r ∷ rs) =
    let rest = sockets_of peer rs in if eq_str r.peer peer then r.socket ∷ rest else rest

-- What a dial knows past its checks. The local name is canonical.
pub record Target : Type 0 where
  pub network : NetworkName
  pub peer : Str
  pub port : ℕ
  pub explicit : Bool
  pub ip : Option Ip
  pub local_name : Option Str

pub data DialError : Type 0 where
  context_done : DialError
  unknown_network : DialError
  bad_address : DialError
  bad_port : DialError
  missing_host : DialError

pub data Checked : Type 0 where
  failed : DialError → Checked
  ready : Target → Checked

-- The name that the context holds, if it holds one, made canonical.
unfoldable pub canonical_name : NetIp → Option Str → Book → Option Str × Book
canonical_name net none b = (none, b)
canonical_name net (some name) b =
    let x = canonical_peer net (peer_name net name) b in (some x.0, x.1)

-- The target's canonical name comes first, then the dialer's.
unfoldable pub resolve_target :
    NetIp → Option Str → NetworkName → Str → ℕ → Bool → Network → Checked × Network
unfolding canonical_name
resolve_target net name network peer port explicit n =
    let x = canonical_peer net peer n.book in
    let y = canonical_name net name x.1 in
    (
      ready (record {
        network = network;
        peer = x.0;
        port = port;
        explicit = explicit;
        ip = parse_literal_ip net peer;
        local_name = y.0;
      }),
      record n { book = y.1 },
    )

unfoldable pub check_split : NetIp → Option Str → NetworkName → Split → Network → Checked × Network
unfolding resolve_target
check_split net name network invalid_address n = (failed bad_address, n)
check_split net name network invalid_port n = (failed bad_port, n)
check_split net name network (split peer port explicit) n =
    if eq_str peer []
    then (failed missing_host, n)
    else resolve_target net name network peer port explicit n

unfoldable pub check_dial :
    NetIp → Bool → Option Str → NetworkName → Str → Network → Checked × Network
unfolding check_split
check_dial net done name network addr n =
    if done
    then (failed context_done, n)
    else if validate_network network
    then check_split net name network (split_addr net addr) n
    else (failed unknown_network, n)

-- waitUnpartitioned: where its loop is. `waiting` has the channel, by how often it was replaced.
pub data DialWait : Type 0 where
  checking : DialWait
  waiting : ℕ → DialWait
  passed : DialWait
  cancelled : DialWait

unfoldable pub wait_on : Bool × ℕ → DialWait
wait_on (true, generation) = waiting generation
wait_on (false, generation) = passed

unfoldable pub wait_turn : PairKey → Shared → DialWait
unfolding wait_on check_partition
wait_turn k n = wait_on (check_partition n k)

-- A dialer without a name, or with an empty one, does not wait.
unfoldable pub dial_pair : Target → Option PairKey
dial_pair t =
    t.local_name >>= λ name. if eq_str name [] then none else some (new_pair_key name t.peer)

unfoldable pub find_listener : NetIp → Target → List ℕ → Network → Option ℕ
unfolding choose_listener matches_at matches
find_listener net t range n =
    choose_listener (matches_at (matches net t.network t.peer t.ip) n.sockets) t.explicit
      (socket_at t.peer t.port n.listeners) range
