-- ===== src/Dial/Parties.antt =====
-- DialContext of netchaos.go: the two peers of a dial.
use netchaos.Base.{ℕ, ◌≡◌, refl, ap, Bool, Option, none, some, [], if◌then◌else◌, if_cases}
use netchaos.Peers.{Str, eq_str, PairKey, new_pair_key}
use netchaos.Addr.{
  NetIp, Split, split, invalid_address, invalid_port, split_addr, peer_name, ephemeral_peer_name,
  NetworkName, validate_network,
}
use netchaos.Book.{Book, canonical_peer}
use netchaos.Network.{Network}
use netchaos.Dial.{local_name}
use netchaos.Dial.Lookup.{
  Checked, failed, ready, canonical_name, resolve_target, check_split, check_dial,
}

-- The dialer's peer: the canonical peer of the host that its name holds, looked up in the book, or
-- the name made up for the ordinal if it has no name or an empty one.
unfoldable pub dialer_peer : NetIp → Option Str → Book → ℕ → Str
dialer_peer net none b ordinal = ephemeral_peer_name ordinal
dialer_peer net (some name) b ordinal =
    let c = (canonical_peer net (peer_name net name) b).0 in
    if eq_str c [] then ephemeral_peer_name ordinal else c

-- The pair of a connection: of the dialer and of the canonical peer of the host that was dialed.
-- The dialer's name is looked up behind the other.
abbrev pub DialPair : NetIp → Option Str → Str → Book → ℕ → PairKey → Type 0
DialPair net name addr b ordinal pair =
    (host : Str) × (port : ℕ) × (explicit : Bool) × (split_addr net addr ≡ split host port explicit)
    × (pair
        ≡ new_pair_key (dialer_peer net name (canonical_peer net host b).1 ordinal)
            (canonical_peer net host b).0)

-- What the checks pass on.
abbrev pub Parties : NetIp → Option Str → Str → Book → Checked → Type 0
Parties net name addr b (failed e) = Unit
Parties net name addr b (ready t) =
    (ordinal : ℕ)
    → DialPair net name addr b ordinal (new_pair_key (local_name t.local_name ordinal) t.peer)

local_name-dialer_peer :
    (net : NetIp) (name : Option Str) (b : Book) (ordinal : ℕ)
    → local_name (canonical_name net name b).0 ordinal ≡ dialer_peer net name b ordinal
unfolding local_name canonical_name dialer_peer
local_name-dialer_peer net none b ordinal = refl
local_name-dialer_peer net (some name) b ordinal = refl

check_split-Parties :
    (net : NetIp) (name : Option Str) (network : NetworkName) (addr : Str) (s : Split) (n : Network)
    → split_addr net addr ≡ s
    → Parties net name addr n.book (check_split net name network s n).0
unfolding check_split resolve_target
check_split-Parties net name network addr invalid_address n e = tt
check_split-Parties net name network addr invalid_port n e = tt
check_split-Parties net name network addr (split host port explicit) n e =
    if_cases (λ (x : Checked × Network). Parties net name addr n.book x.0) (eq_str host []) _ _
      (λ _. tt)
      (λ _ ordinal. (
        host,
        port,
        explicit,
        e,
        ap (λ c. new_pair_key c (canonical_peer net host n.book).0)
            (local_name-dialer_peer net name (canonical_peer net host n.book).1 ordinal),
      ))

pub check_dial-Parties :
    (net : NetIp) (done : Bool) (name : Option Str) (network : NetworkName) (addr : Str)
    (n : Network)
    → Parties net name addr n.book (check_dial net done name network addr n).0
unfolding check_dial
check_dial-Parties net done name network addr n =
    if_cases (λ (x : Checked × Network). Parties net name addr n.book x.0) done _ _ (λ _. tt)
      (λ _.
        if_cases (λ (x : Checked × Network). Parties net name addr n.book x.0)
          (validate_network network) _ _
          (λ _. check_split-Parties net name network addr (split_addr net addr) n refl) (λ _. tt))
