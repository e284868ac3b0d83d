-- ===== src/Dial/Outcomes.antt =====
-- What a dial leaves behind, however it ends.
use netchaos.Base.{
  ℕ, suc, ◌+◌, ◌-◌, ◌%◌, ◌≤◌, ◌<◌, ◌≡◌, refl, ap, ◌∙◌, true, false, Option, some, [], ◌∷◌, ◌++◌,
  length, leb, ◌>>=◌, arith, if_cases,
}
use netchaos.Rand.{word}
use netchaos.Peers.{Str}
use netchaos.Addr.{NetIp}
use netchaos.Book.{Book, IpResult, assigned, family_mismatch, space_exhausted}
use netchaos.Book.Ending.{CountersFit, left_over, peer_ip_total}
use netchaos.Listener.{
  Listener, ReserveResult, slot_reserved, connection_refused, backlog_full, reserve, fill,
}
use netchaos.Dial.{
  Dialing, DialResult, established, refused, full, no_address, local_name, hand_over,
  establish_reserved, establish,
}

abbrev pub DialSpec : ℕ → Dialing → DialResult × Dialing → Type 0
DialSpec c d (established ordinal, e) =
    (d.listener.closed ≡ false)
    × (ordinal ≡ d.next_ordinal)
    × (e.next_ordinal ≡ suc d.next_ordinal % word)
    × (e.listener.reserved ≡ d.listener.reserved)
    × (e.listener.incoming ≡ d.listener.incoming ++ c ∷ [])
DialSpec c d (refused, e) = (d.listener.closed ≡ true) × (e ≡ d)
DialSpec c d (full, e) =
    (d.listener.closed ≡ false)
    × (d.listener.bound ≤ length d.listener.incoming + d.listener.reserved)
    × (e ≡ d)
DialSpec c d (no_address, e) =
    (d.listener.closed ≡ false)
    × (e.next_ordinal ≡ suc d.next_ordinal % word)
    × (e.listener.reserved ≡ suc d.listener.reserved)
    × (e.listener.incoming ≡ d.listener.incoming)

-- How a claim can go, with what is needed of the listener after it.
abbrev Claimed : Listener → ReserveResult × Listener → Type 0
Claimed l (connection_refused, m) = (l.closed ≡ true) × (m ≡ l)
Claimed l (backlog_full, m) =
    (l.closed ≡ false) × (l.bound ≤ length l.incoming + l.reserved) × (m ≡ l)
Claimed l (slot_reserved, m) =
    (l.closed ≡ false)
    × (m.reserved ≡ suc l.reserved)
    × (m.incoming ≡ l.incoming)
    × ((c : ℕ) → (fill c m).1.incoming ≡ l.incoming ++ c ∷ [])
    × ((c : ℕ) → (fill c m).1.reserved ≡ l.reserved)

fill_open :
    (c : ℕ) (m : Listener)
    → m.closed ≡ false
    → length m.incoming < m.bound
    → ((fill c m).1.incoming ≡ m.incoming ++ c ∷ []) × ((fill c m).1.reserved ≡ m.reserved - 1)
unfolding fill
fill_open c m o h = ground arith

reserve-Claimed : (l : Listener) → Claimed l (reserve l)
unfolding reserve
reserve-Claimed l =
    if_cases (Claimed l) l.closed _ _ (λ e. (e, refl))
      (λ o.
        if_cases (Claimed l) (leb l.bound (length l.incoming + l.reserved)) _ _
          (λ e. (o, ground arith, refl))
          (λ e.
            let m : Listener = record l { reserved = suc l.reserved } in
            let room : length l.incoming < l.bound = ground arith in
            (
              o,
              refl,
              refl,
              (λ c. (fill_open c m o room).0),
              (λ c. (fill_open c m o room).1 ∙ omega arith),
            )))

handed_over :
    (c : ℕ) (d : Dialing) (m : Listener) (r : IpResult × Book)
    → Claimed d.listener (slot_reserved, m)
    → DialSpec c d (
        hand_over c d.next_ordinal
          (record d { listener = m; next_ordinal = suc d.next_ordinal % word })
          r)
unfolding hand_over
handed_over c d m (assigned ip, b) k = (k.0, refl, refl, k.4 c, k.3 c)
handed_over c d m (family_mismatch, b) k = (k.0, refl, k.1, k.2)
handed_over c d m (space_exhausted, b) k = (k.0, refl, k.1, k.2)

abbrev pub Outcome : ℕ → Dialing → Option (DialResult × Dialing) → Type 0
Outcome c d o = (r : DialResult × Dialing) × (o ≡ some r) × DialSpec c d r

-- How a dial ends, on every branch, and what it leaves. A dial that a closed listener refuses, or a
-- full one, changes nothing. One that is established has the next ordinal, has its connection queued
-- last, and has given its slot back. One whose own address cannot be had has taken an ordinal all
-- the same, and has left its slot claimed.
pub establish_lem :
    (fuel : ℕ) (net : NetIp) (name : Option Str) (family c : ℕ) (d : Dialing)
    → CountersFit d.book
    → left_over family d.book < fuel
    → Outcome c d (establish fuel net name family c d)
unfolding establish establish_reserved
establish_lem fuel net name family c d v h =
    claimed (reserve d.listener) (reserve-Claimed d.listener)
  where
    claimed :
        (x : ReserveResult × Listener)
        → Claimed d.listener x
        → Outcome c d (establish_reserved fuel net name family c d x)
    claimed (connection_refused, m) k =
        (_, refl, (k.0, ap (λ (l : Listener). record d { listener = l }) k.1))
    claimed (backlog_full, m) k =
        (_, refl, (k.0, k.1, ap (λ (l : Listener). record d { listener = l }) k.2))
    claimed (slot_reserved, m) k =
        let (r, b, e) = peer_ip_total fuel net (local_name name d.next_ordinal) family d.book v h in
        (
          _,
          ap
              (λ (o : Option (IpResult × Book)). o >>= λ x. some (
                hand_over c d.next_ordinal
                  (record d { listener = m; next_ordinal = suc d.next_ordinal % word }) x))
              e,
          handed_over c d m (r, b) k,
        )
