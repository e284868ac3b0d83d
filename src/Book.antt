-- ===== src/Book.antt =====
-- addressing.go: the names and the addresses of a Network. A Go map is the list of its entries,
-- the latest first; a family is 4 or 6.
pub mod Owners
pub mod Ending
use netchaos.Base.{
  ℕ, zero, suc, ◌+◌, ◌-◌, ◌*◌, ◌/◌, ◌%◌, ◌^◌, Bool, true, false, ◌&&◌, ◌||◌, not, Option, none,
  some, List, [], ◌∷◌, ◌++◌, ltb, leb, ◌==◌, if◌then◌else◌,
}
use netchaos.Rand.{word, big_endian}
use netchaos.Peers.{Str, eq_str}
use netchaos.Addr.{
  Ip, v4, v6, NetIp, parse_literal_ip, is_some, NetworkName, tcp, tcp4, tcp6, udp, udp4, udp6,
  other,
}

-- An entry of peerIPs.
pub record PeerIp : Type 0 where
  pub peer : Str
  pub family : ℕ
  pub ip : Ip

-- An entry of ipOwners.
pub record Owner : Type 0 where
  pub key : Str
  pub owner : Str

pub record Book : Type 0 where
  pub ip_owners : List Owner
  pub peer_ips : List PeerIp
  pub next_ipv4 : ℕ
  pub next_ipv6 : ℕ

unfoldable pub new_book : Book
new_book = record { ip_owners = []; peer_ips = []; next_ipv4 = 0; next_ipv6 = 0 }

unfoldable pub owner_of : Str → List Owner → Option Str
owner_of k [] = none
owner_of k (o ∷ os) = let rest = owner_of k os in if eq_str o.key k then some o.owner else rest

unfoldable pub ip_of : Str → ℕ → List PeerIp → Option Ip
ip_of p f [] = none
ip_of p f (e ∷ es) =
    let rest = ip_of p f es in if eq_str e.peer p && (e.family == f) then some e.ip else rest

unfoldable pub own : Str → Str → Book → Book
own key owner b = record b { ip_owners = (record { key = key; owner = owner }) ∷ b.ip_owners }

-- canonicalPeer, for an address literal: its owner, or the literal, which is reserved.
unfoldable pub canonical_owner : Str → Option Str → Book → Str × Book
unfolding own
canonical_owner key (some owner) b = (owner, b)
canonical_owner key none b = (key, own key key b)

unfoldable pub canonical_literal : NetIp → Str → Option Ip → Book → Str × Book
unfolding canonical_owner
canonical_literal net host none b = (host, b)
canonical_literal net host (some ip) b =
    canonical_owner (net.text ip) (owner_of (net.text ip) b.ip_owners) b

unfoldable pub canonical_peer : NetIp → Str → Book → Str × Book
unfolding canonical_literal
canonical_peer net host b = canonical_literal net host (parse_literal_ip net host) b

-- The answers of peerIPLocked: an address, and its two errors.
pub data IpResult : Type 0 where
  assigned : Ip → IpResult
  family_mismatch : IpResult
  space_exhausted : IpResult

-- 198.18.0.0/15, and the addresses that start with the byte 0xfd and seven zeros.
unfoldable pub synthetic4 : ℕ → Ip
synthetic4 v = v4 (198 ∷ ((18 + v / 2 ^ 16) % 256) ∷ (v / 2 ^ 8 % 256) ∷ (v % 256) ∷ [])

unfoldable pub synthetic6 : ℕ → Ip
synthetic6 v = v6 (253 ∷ 0 ∷ 0 ∷ 0 ∷ 0 ∷ 0 ∷ 0 ∷ 0 ∷ big_endian v) []

-- The next address of a family, or none when the space is used up.
unfoldable pub candidate : ℕ → Book → Option Ip
candidate family b =
    if family == 4
    then (if leb (2 ^ 17) b.next_ipv4 then none else some (synthetic4 b.next_ipv4))
    else if b.next_ipv6 == word - 1
    then none
    else some (synthetic6 b.next_ipv6)

-- The counters are a uint32 and a uint64.
unfoldable pub advance_counter : ℕ → Book → Book
advance_counter family b =
    if family == 4
    then record b { next_ipv4 = suc b.next_ipv4 % 2 ^ 32 }
    else record b { next_ipv6 = suc b.next_ipv6 % word }

unfoldable pub assign : NetIp → Str → ℕ → Ip → Book → Book
unfolding own
assign net peer family ip b =
    let c = own (net.text ip) peer b in
    record c { peer_ips = (record { peer = peer; family = family; ip = ip }) ∷ c.peer_ips }

-- One turn of the loop: `b` has its counter advanced, and `again` is the rest of the loop.
unfoldable pub take_candidate :
    NetIp → Str → ℕ → Option Ip → Book → Option (IpResult × Book) → Option (IpResult × Book)
take_candidate net peer family none b again = some (space_exhausted, b)
take_candidate net peer family (some ip) b again =
    if is_some (owner_of (net.text ip) b.ip_owners)
    then again
    else some (assigned ip, assign net peer family ip b)

unfoldable pub allocate : ℕ → NetIp → Str → ℕ → Book → Option (IpResult × Book)
allocate zero net peer family b = none
allocate (suc fuel) net peer family b =
    let again = allocate fuel net peer family (advance_counter family b) in
    take_candidate net peer family (candidate family b) (advance_counter family b) again

unfoldable pub mismatch : Ip → ℕ → Bool
mismatch (v4 bytes) family = not (family == 4)
mismatch (v6 bytes zone) family = not (family == 6)

unfoldable pub name_ip : ℕ → NetIp → Str → ℕ → Option Ip → Book → Option (IpResult × Book)
name_ip fuel net peer family (some ip) b = some (assigned ip, b)
name_ip fuel net peer family none b = allocate fuel net peer family b

unfoldable pub literal_or_name_ip :
    ℕ → NetIp → Str → ℕ → Option Ip → Book → Option (IpResult × Book)
unfolding own
literal_or_name_ip fuel net peer family (some ip) b =
    if mismatch ip family
    then some (family_mismatch, b)
    else some (assigned ip, own (net.text ip) peer b)
literal_or_name_ip fuel net peer family none b =
    name_ip fuel net peer family (ip_of peer family b.peer_ips) b

unfoldable pub peer_ip : ℕ → NetIp → Str → ℕ → Book → Option (IpResult × Book)
peer_ip fuel net peer family b =
    literal_or_name_ip fuel net peer family (parse_literal_ip net peer) b

unfoldable pub literal_family : Option Ip → ℕ
literal_family none = 4
literal_family (some (v4 bytes)) = 4
literal_family (some (v6 bytes zone)) = 6

-- addressFamily, of a network that validateNetwork lets through.
unfoldable pub address_family : NetIp → NetworkName → Str → ℕ
unfolding literal_family
address_family net tcp6 host = 6
address_family net tcp4 host = 4
address_family net tcp host = literal_family (parse_literal_ip net host)
address_family net udp host = literal_family (parse_literal_ip net host)
address_family net udp4 host = literal_family (parse_literal_ip net host)
address_family net udp6 host = literal_family (parse_literal_ip net host)
address_family net (other s) host = literal_family (parse_literal_ip net host)
