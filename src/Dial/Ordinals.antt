-- ===== src/Dial/Ordinals.antt =====
-- DialContext of netchaos.go: that it answers, and the ordinals that it takes.
use netchaos.Base.{
  ℕ, suc, ◌%◌, ◌≤◌, ◌≡◌, refl, ap, ◌∙◌, Bool, true, false, Option, none, some, List, [], ◌∷◌,
  get_elem?, ◌>>=◌, arith, if_cases, along_some, subst,
}
use netchaos.Rand.{word}
use netchaos.Peers.{Str, PairKey, eq_str}
use netchaos.Addr.{
  NetIp, peer_name, Split, split, invalid_address, invalid_port, split_addr, NetworkName,
  validate_network,
}
use netchaos.Book.{Book, canonical_peer, address_family}
use netchaos.Book.Ending.{CountersFit, canonical_peer-CountersFit, left_over_bound}
use netchaos.Network.{Socket, Network}
use netchaos.Network.Ports.{socket_at}
use netchaos.Network.Listening.{put_socket}
use netchaos.Dial.{Dialing, DialResult, established, refused, full, no_address, establish}
use netchaos.Dial.Outcomes.{DialSpec, establish_lem}
use netchaos.Dial.Lookup.{
  Target, Checked, failed, ready, canonical_name, resolve_target, check_split, check_dial, wait_on,
  wait_turn, dial_pair, find_listener, choose_listener, sole, exact, matches_at, matches,
}
use netchaos.Faults.{is_partitioned}
use netchaos.Partition.{check_partition}
use netchaos.Dial.Whole.{
  DialAnswer, failed_check, blocked, answered, dialing_at, after_dialing, connect, past_wait,
  first_wait, dial_checked, dial_context,
}

canonical_name-CountersFit :
    (net : NetIp) (name : Option Str) (b : Book)
    → CountersFit b
    → CountersFit (canonical_name net name b).1
unfolding canonical_name
canonical_name-CountersFit net none b v = v
canonical_name-CountersFit net (some name) b v =
    canonical_peer-CountersFit net (peer_name net name) b v

-- What the checks leave of the Network.
abbrev Begun : Network → Checked × Network → Type 0
Begun n x =
    CountersFit x.1.book
    × (x.1.next_ordinal ≡ n.next_ordinal)
    × (x.1.listeners ≡ n.listeners)
    × (x.1.sockets ≡ n.sockets)

check_split-Begun :
    (net : NetIp) (name : Option Str) (network : NetworkName) (s : Split) (n : Network)
    → CountersFit n.book
    → Begun n (check_split net name network s n)
unfolding check_split resolve_target
check_split-Begun net name network invalid_address n v = (v, refl, refl, refl)
check_split-Begun net name network invalid_port n v = (v, refl, refl, refl)
check_split-Begun net name network (split peer port explicit) n v =
    if_cases (Begun n) (eq_str peer []) _ _ (λ _. (v, refl, refl, refl))
      (λ _. (
        canonical_name-CountersFit net name (canonical_peer net peer n.book).1
            (canonical_peer-CountersFit net peer n.book v),
        refl,
        refl,
        refl,
      ))

check_dial-Begun :
    (net : NetIp) (done : Bool) (name : Option Str) (network : NetworkName) (addr : Str)
    (n : Network)
    → CountersFit n.book
    → Begun n (check_dial net done name network addr n)
unfolding check_dial
check_dial-Begun net done name network addr n v =
    if_cases (Begun n) done _ _ (λ _. (v, refl, refl, refl))
      (λ _.
        if_cases (Begun n) (validate_network network) _ _
          (λ _. check_split-Begun net name network (split_addr net addr) n v)
          (λ _. (v, refl, refl, refl)))

-- The ordinal that a dial takes, and the counter after it.
abbrev pub Ordinals : ℕ → DialAnswer × Network → Type 0
Ordinals next (failed_check e, m) = m.next_ordinal ≡ next
Ordinals next (blocked generation, m) = m.next_ordinal ≡ next
Ordinals next (answered (established ordinal), m) =
    (ordinal ≡ next) × (m.next_ordinal ≡ suc next % word)
Ordinals next (answered refused, m) = m.next_ordinal ≡ next
Ordinals next (answered full, m) = m.next_ordinal ≡ next
Ordinals next (answered no_address, m) = m.next_ordinal ≡ suc next % word

abbrev pub Answered : ℕ → Option (DialAnswer × Network) → Type 0
Answered next o = (x : DialAnswer × Network) × (o ≡ some x) × Ordinals next x

sole-test :
    (test : ℕ → Bool) (found : Option ℕ) (ss : List ℕ) (s : ℕ)
    → ((l : ℕ) → found ≡ some l → test l ≡ true)
    → sole test found ss ≡ some s
    → test s ≡ true
unfolding sole
sole-test test found [] s h = h s
sole-test test none (x ∷ xs) s h =
    if_cases (λ (o : Option ℕ). o ≡ some s → test s ≡ true) (test x) _ _
      (λ ok. sole-test test (some x) xs s (λ l e. along_some (λ (y : ℕ). test y ≡ true) e ok))
      (λ _. sole-test test none xs s h)
sole-test test (some l) (x ∷ xs) s h =
    if_cases (λ (o : Option ℕ). o ≡ some s → test s ≡ true) (test x) _ _ (λ _ e. cc)
      (λ _. sole-test test (some l) xs s h)

choose_listener-test :
    (test : ℕ → Bool) (explicit : Bool) (at_port : Option ℕ) (range : List ℕ) (s : ℕ)
    → choose_listener test explicit at_port range ≡ some s
    → test s ≡ true
unfolding choose_listener exact
choose_listener-test test true none range s = λ e. cc
choose_listener-test test true (some x) range s =
    if_cases (λ (o : Option ℕ). o ≡ some s → test s ≡ true) (test x) _ _
      (λ ok e. along_some (λ (y : ℕ). test y ≡ true) e ok) (λ _ e. cc)
choose_listener-test test false at_port range s = sole-test test none range s (λ l f. cc)

matched :
    (test : Socket → Bool) (sockets : List Socket) (s : ℕ)
    → matches_at test sockets s ≡ true
    → (k : Socket) × (get_elem? sockets s ≡ some k)
unfolding matches_at
matched test sockets s = from (get_elem? sockets s)
  where
    from :
        (o : Option Socket)
        → (elim o [ none ↦ false | some k ↦ test k ]) ≡ true
        → (k : Socket) × (o ≡ some k)
    from none e = absurd (let both : false ≡ true = e in cc)
    from (some k) e = (k, refl)

after_dialing-Ordinals :
    (s c : ℕ) (k : Socket) (n : Network) (x : DialResult × Dialing)
    → DialSpec c (dialing_at k n) x
    → Ordinals n.next_ordinal (after_dialing s k n x)
unfolding after_dialing dialing_at put_socket
after_dialing-Ordinals s c k n (established ordinal, d) h = (h.1, h.2)
after_dialing-Ordinals s c k n (refused, d) h = ap (λ (x : Dialing). x.next_ordinal) h.1
after_dialing-Ordinals s c k n (full, d) h = ap (λ (x : Dialing). x.next_ordinal) h.2
after_dialing-Ordinals s c k n (no_address, d) h = h.1

connect-Answered :
    (fuel : ℕ) (net : NetIp) (t : Target) (c : ℕ) (o : Option ℕ) (n : Network)
    → CountersFit n.book
    → word ≤ fuel
    → ((s : ℕ) → o ≡ some s → (k : Socket) × (get_elem? n.sockets s ≡ some k))
    → Answered n.next_ordinal (connect fuel net t c o n)
unfolding connect dialing_at
connect-Answered fuel net t c none n v enough found = (_, refl, refl)
connect-Answered fuel net t c (some s) n v enough found =
    let (k, at_s) = found s refl in
    let family = address_family net k.network k.peer in
    let (r, e, spec) =
      establish_lem fuel net t.local_name family c (dialing_at k n) v
        (omega (arith, left_over_bound family n.book, enough)) in
    (
      after_dialing s k n r,
      ap
            (λ (o : Option Socket). o >>= λ k.
              establish fuel net t.local_name (address_family net k.network k.peer) c
                (dialing_at k n)
              >>= λ r. some (after_dialing s k n r))
            at_s
          ∙ ap (λ (o : Option (DialResult × Dialing)). o >>= λ r. some (after_dialing s k n r)) e,
      after_dialing-Ordinals s c k n r spec,
    )

past_wait-Answered :
    (fuel : ℕ) (net : NetIp) (t : Target) (c : ℕ) (range : List ℕ) (p : Option PairKey)
    (n : Network)
    → CountersFit n.book
    → word ≤ fuel
    → Answered n.next_ordinal (past_wait fuel net t c range (first_wait p n) n)
unfolding past_wait first_wait find_listener wait_turn wait_on check_partition
past_wait-Answered fuel net t c range p n v enough = from p
  where
    reached : Answered n.next_ordinal (connect fuel net t c (find_listener net t range n) n)
    reached = connect-Answered fuel net t c (find_listener net t range n) n v enough (λ s e.
        matched (matches net t.network t.peer t.ip) n.sockets s (
          choose_listener-test (matches_at (matches net t.network t.peer t.ip) n.sockets) t.explicit
            (socket_at t.peer t.port n.listeners) range s e))

    turned :
        (b : Bool) (g : ℕ)
        → Answered n.next_ordinal (past_wait fuel net t c range (wait_on (b, g)) n)
    turned true g = (_, refl, refl)
    turned false g = reached

    from :
        (p : Option PairKey)
        → Answered n.next_ordinal (past_wait fuel net t c range (first_wait p n) n)
    from none = reached
    from (some k) = turned (is_partitioned n.shared k) n.shared.part_notify

-- DialContext always answers, or waits on a partition, whatever it is given: with fuel for the
-- candidates of a family, its search for an address ends. A connection that it establishes has the
-- next ordinal. A dial that fails takes none, and so shifts no later connection's, except for one:
-- a dial whose own address cannot be had has taken an ordinal when it fails.
pub dial_context_lem :
    (fuel : ℕ) (net : NetIp) (done : Bool) (name : Option Str) (network : NetworkName) (addr : Str)
    (c : ℕ) (range : List ℕ) (n : Network)
    → CountersFit n.book
    → word ≤ fuel
    → Answered n.next_ordinal (dial_context fuel net done name network addr c range n)
unfolding dial_context dial_checked
dial_context_lem fuel net done name network addr c range n v enough =
    checked (check_dial net done name network addr n)
      (check_dial-Begun net done name network addr n v)
  where
    checked :
        (x : Checked × Network)
        → Begun n x
        → Answered n.next_ordinal (dial_checked fuel net c range x)
    checked (failed e, m) b = (_, refl, b.1)
    checked (ready t, m) b =
        subst (λ (next : ℕ). Answered next (dial_checked fuel net c range (ready t, m))) b.1
          (past_wait-Answered fuel net t c range (dial_pair t) m b.0 enough)
