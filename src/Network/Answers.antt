-- ===== src/Network/Answers.antt =====
-- netchaos.go: what Listen answers.
use netchaos.Base.{
  ℕ, suc, ◌%◌, ◌≤◌, ◌≡◌, ◌⊎◌, inl, inr, refl, sym, subst, ap, ◌∙◌, none, [], if◌then◌else◌,
  if_cases, arith, Bool, true, false, Option, some, length, ◌>>=◌, if_chosen, if_skipped, ◌<◌,
}
use netchaos.Addr.{
  wildcard_peer_name, parse_literal_ip, validate_network, split, split_addr, Ip, NetIp, NetworkName,
}
use netchaos.Book.{
  owner_of, canonical_peer, Book, IpResult, assigned, family_mismatch, space_exhausted,
  address_family,
}
use netchaos.Book.Ending.{
  canonical_peer-CountersFit, left_over_bound, CountersFit, left_over, peer_ip_total,
}
use netchaos.Network.Listening.{
  taken_literal, other_owner, listen, listen_split, named_peer, listen_peer, ListenResult,
  listening, unknown_network, bad_address, bad_port, address_in_use, address_mismatch,
  addresses_exhausted, register, listen_port, choose_port, listen_canonical,
}
use netchaos.Peers.{eq_str, Str}
use netchaos.Rand.{word}
use mathlib.Core.Option.{some-injective}
use netchaos.Network.Registry.{same_at_refl}
use netchaos.Network.{Network}
use netchaos.Network.Ports.{socket_at, InRange, Unused, search_port-some, search_port-InRange}

-- What a Listen without a port comes to: a listener at an unused port of the range, or an address
-- that cannot be had.
abbrev pub Served : Network → Str → ListenResult × Network → Type 0
Served n peer (listening s, m) =
    (s ≡ length n.sockets)
    × ((port : ℕ) × InRange port
        × Unused n.listeners peer port
        × (socket_at peer port m.listeners ≡ some s))
Served n peer (unknown_network, m) = ⊥
Served n peer (bad_address, m) = ⊥
Served n peer (bad_port, m) = ⊥
Served n peer (address_in_use, m) = ⊥
Served n peer (address_mismatch, m) = m.listeners ≡ n.listeners
Served n peer (addresses_exhausted, m) = m.listeners ≡ n.listeners

register-Served :
    (network : NetworkName) (peer : Str) (port : ℕ) (n : Network) (x : IpResult × Book)
    → InRange port
    → Unused n.listeners peer port
    → Served n peer (register network peer port n x)
unfolding register socket_at
register-Served network peer port n (assigned ip, book) h u =
    (refl, (port, h, u, if_chosen _ (same_at_refl peer port) (some (length n.sockets)) _))
register-Served network peer port n (family_mismatch, book) h u = refl
register-Served network peer port n (space_exhausted, book) h u = refl

listen_port-Served :
    (fuel : ℕ) (net : NetIp) (network : NetworkName) (peer : Str) (port : ℕ) (n : Network)
    → CountersFit n.book
    → left_over (address_family net network peer) n.book < fuel
    → InRange port
    → Unused n.listeners peer port
    → (x : ListenResult × Network) × (listen_port fuel net network peer port n ≡ some x)
      × Served n peer x
unfolding listen_port
listen_port-Served fuel net network peer port n v enough h u =
    let (r, b, e) = peer_ip_total fuel net peer (address_family net network peer) n.book v enough in
    (
      register network peer port n (r, b),
      if_skipped _ u (some (address_in_use, n)) _
          ∙ ap (λ (o : Option (IpResult × Book)). o >>= λ x. some (register network peer port n x))
              e,
      register-Served network peer port n (r, b) h u,
    )

listen_canonical_lem :
    (fuel : ℕ) (net : NetIp) (network : NetworkName) (port : ℕ) (peer : Str) (book : Book)
    (n : Network) (q : ℕ)
    → CountersFit book
    → left_over (address_family net network peer) book < fuel
    → InRange n.next_listen_port
    → InRange q
    → Unused n.listeners peer q
    → (x : ListenResult × Network) × (listen_canonical fuel net network false port (peer, book) n
        ≡ some x)
      × Served n peer x
unfolding listen_canonical choose_port
listen_canonical_lem fuel net network port peer book n q v enough h k u =
    let found = search_port-some n.listeners peer port n.next_listen_port q h k u in
    listen_port-Served fuel net network peer _ _ v enough found.1 found.0

-- The peer that a Listen is for: the host that was named, or a name made up for the next wildcard.
abbrev pub listening_name : Str → Network → Str
listening_name host n = if eq_str host [] then wildcard_peer_name n.next_wildcard else host

-- The name is the literal of an address that the Network has given to another peer.
abbrev pub OwnedByOther : NetIp → Str → Book → Type 0
OwnedByOther net name b =
    (ip : Ip) × (owner : Str) × (parse_literal_ip net name ≡ some ip)
    × (owner_of (net.text ip) b.ip_owners ≡ some owner)
    × (eq_str owner (net.text ip) ≡ false)

taken_literal-OwnedByOther :
    (net : NetIp) (name : Str) (b : Book)
    → (taken_literal net (parse_literal_ip net name) b ≡ true → OwnedByOther net name b)
      × (taken_literal net (parse_literal_ip net name) b ≡ false → ¬ OwnedByOther net name b)
unfolding taken_literal other_owner
taken_literal-OwnedByOther net name b = literal (parse_literal_ip net name) refl
  where
    owned :
        (ip : Ip) (o : Option Str)
        → parse_literal_ip net name ≡ some ip
        → owner_of (net.text ip) b.ip_owners ≡ o
        → (other_owner (net.text ip) o ≡ true → OwnedByOther net name b)
          × (other_owner (net.text ip) o ≡ false → ¬ OwnedByOther net name b)
    owned ip none is at =
        ((λ e. cc), (λ e x. let same : some ip ≡ some x.0 = sym is ∙ x.2 in let found = x.3 in cc))
    owned ip (some o) is at = (
      (λ e. (ip, o, is, at, ground arith)),
      (λ e x.
          let same : ip ≡ x.0 = some-injective ip x.0 (sym is ∙ x.2) in
          let owner : o ≡ x.1 =
            some-injective o x.1
              (sym at ∙ ap (λ i. owner_of (net.text i) b.ip_owners) same ∙ x.3) in
          let differs : eq_str o (net.text ip) ≡ false =
            (λ k. eq_str (owner k) (net.text (same k))) ∙ x.4 in
          ground arith),
    )

    literal :
        (o : Option Ip)
        → parse_literal_ip net name ≡ o
        → (taken_literal net o b ≡ true → OwnedByOther net name b)
          × (taken_literal net o b ≡ false → ¬ OwnedByOther net name b)
    literal none is = ((λ e. cc), (λ e x. let same : none ≡ some x.0 = sym is ∙ x.2 in cc))
    literal (some ip) is = owned ip (owner_of (net.text ip) b.ip_owners) is refl

-- What a Listen comes to at a peer: it is refused, since the name is another peer's literal, or it
-- is served.
abbrev pub Answered : NetIp → Network → Str → ListenResult × Network → Type 0
Answered net n name x =
    (OwnedByOther net name n.book × (x.0 ≡ address_in_use) × (x.1.listeners ≡ n.listeners))
    ⊎ ((¬ OwnedByOther net name n.book) × Served n (canonical_peer net name n.book).0 x)

abbrev Answers : NetIp → Network → Str → Option (ListenResult × Network) → Type 0
Answers net n name o = (x : ListenResult × Network) × (o ≡ some x) × Answered net n name x

listen_peer-Answers :
    (fuel : ℕ) (net : NetIp) (network : NetworkName) (port : ℕ) (name : Str) (n : Network) (q : ℕ)
    → CountersFit n.book
    → word ≤ fuel
    → InRange n.next_listen_port
    → InRange q
    → Unused n.listeners (canonical_peer net name n.book).0 q
    → Answers net n name (listen_peer fuel net network false port (name, n))
unfolding listen_peer
listen_peer-Answers fuel net network port name n q v enough h k u =
    let key = canonical_peer net name n.book in
    let owner = taken_literal-OwnedByOther net name n.book in
    if_cases (Answers net n name) (taken_literal net (parse_literal_ip net name) n.book) _ _
      (λ e. ((address_in_use, n), refl, inl (owner.0 e, refl, refl)))
      (λ e.
        let (x, is, served) =
          listen_canonical_lem fuel net network port key.0 key.1 n q
            (canonical_peer-CountersFit net name n.book v)
            (omega (arith, left_over_bound (address_family net network key.0) key.1, enough)) h k
            u in
        (x, is, inr (owner.1 e, served)))

-- Listen on an address without a port, on a network that it knows, always answers, given fuel for
-- the candidates of a family, as long as its peer has some port from 8000 to 65535 unused and the
-- port counter is in that range. Its peer is the canonical one of the host, or of a made-up name
-- where there is no host. If the name is the literal of an address that the Network has given to
-- another peer, Listen fails with ErrAddressInUse and registers nothing. Else it never fails for
-- want of a port: it listens at a port of the range that was unused, or finds no address, and then
-- registers nothing.
pub listen_lem :
    (fuel : ℕ) (net : NetIp) (network : NetworkName) (laddr host : Str) (port : ℕ) (n : Network)
    (q : ℕ)
    → CountersFit n.book
    → word ≤ fuel
    → InRange n.next_listen_port
    → validate_network network ≡ true
    → split_addr net laddr ≡ split host port false
    → InRange q
    → Unused n.listeners (canonical_peer net (listening_name host n) n.book).0 q
    → (x : ListenResult × Network) × (listen fuel net network laddr n ≡ some x)
      × Answered net n (listening_name host n) x
unfolding listen listen_split named_peer
listen_lem fuel net network laddr host port n q v enough h known is k u =
    subst (Answers net n (listening_name host n)) (sym whole) (named (eq_str host []) u)
  where
    whole :
        listen fuel net network laddr n ≡ listen_split fuel net network (split host port false) n
    whole =
        if_chosen _ known (listen_split fuel net network (split_addr net laddr) n)
          (some (unknown_network, n))
        ∙ ap (λ s. listen_split fuel net network s n) is

    w : Str
    w = wildcard_peer_name n.next_wildcard

    m : Network
    m = record n { next_wildcard = suc n.next_wildcard % word }

    named :
        (b : Bool)
        → Unused n.listeners (canonical_peer net (if b then w else host) n.book).0 q
        → Answers net n
            (if b then w else host)
            (listen_peer fuel net network false port (if b then (w, m) else (host, n)))
    named true u = listen_peer-Answers fuel net network port w m q v enough h k u
    named false u = listen_peer-Answers fuel net network port host n q v enough h k u

-- A new Network's counter is in the range, and a Listen without a port leaves it there.
pub choose_port-InRange :
    (explicit : Bool) (port : ℕ) (peer : Str) (n : Network)
    → InRange n.next_listen_port
    → InRange (choose_port explicit port peer n).1.next_listen_port
unfolding choose_port
choose_port-InRange true port peer n h = h
choose_port-InRange false port peer n h =
    search_port-InRange 57536 n.listeners peer port n.next_listen_port h
