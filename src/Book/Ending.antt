-- ===== src/Book/Ending.antt =====
-- addressing.go: the fuel of the search for a free address.
use netchaos.Base.{
  ℕ, zero, suc, ◌-◌, ◌^◌, ◌<◌, ◌≡◌, ◌⊎◌, inl, inr, refl, Option, none, some, ◌==◌, if◌then◌else◌,
  arith, if_cases,
}
use netchaos.Rand.{word}
use netchaos.Peers.{Str}
use netchaos.Addr.{Ip, NetIp, parse_literal_ip, is_some}
use netchaos.Book.{
  Book, IpResult, owner_of, ip_of, candidate, advance_counter, take_candidate, allocate, mismatch,
  name_ip, literal_or_name_ip, peer_ip, own, canonical_owner, canonical_literal, canonical_peer,
}

-- The candidates of the family that are left.
abbrev pub left_over : ℕ → Book → ℕ
left_over family b = if family == 4 then 2 ^ 17 - b.next_ipv4 else word - 1 - b.next_ipv6

abbrev pub CountersFit : Book → Type 0
CountersFit b = (b.next_ipv4 < 2 ^ 32) × (b.next_ipv6 < word)

abbrev Answers : Option (IpResult × Book) → Type 0
Answers o = (r : IpResult) × (b : Book) × (o ≡ some (r, b))

advanced : (family : ℕ) (b : Book) → CountersFit b → CountersFit (advance_counter family b)
unfolding advance_counter
advanced family b v =
    if_cases CountersFit (family == 4) _ _ (λ _. (omega arith, omega (arith, v)))
      (λ _. (omega (arith, v), omega arith))

exhausted_or_less :
    (family : ℕ) (b : Book)
    → CountersFit b
    → (candidate family b ≡ none)
      ⊎ (left_over family (advance_counter family b) < left_over family b)
unfolding candidate advance_counter
exhausted_or_less family b v = ground arith

take_candidate-Answers :
    (net : NetIp) (peer : Str) (family : ℕ) (o : Option Ip) (d : Book)
    (again : Option (IpResult × Book))
    → (o ≡ none) ⊎ Answers again
    → Answers (take_candidate net peer family o d again)
unfolding take_candidate
take_candidate-Answers net peer family none d again h = (_, _, refl)
take_candidate-Answers net peer family (some ip) d again (inl e) = cc
take_candidate-Answers net peer family (some ip) d again (inr h) =
    if_cases Answers (is_some (owner_of (net.text ip) d.ip_owners)) again _ (λ _. h)
      (λ _. (_, _, refl))

allocate-Answers :
    (fuel : ℕ) (net : NetIp) (peer : Str) (family : ℕ) (b : Book)
    → CountersFit b
    → left_over family b < fuel
    → Answers (allocate fuel net peer family b)
unfolding allocate
allocate-Answers zero net peer family b v h = absurd (omega arith)
allocate-Answers (suc fuel) net peer family b v h =
    take_candidate-Answers net peer family (candidate family b) (advance_counter family b) _
      (elim (exhausted_or_less family b v) [
        | inl e ↦ inl e
        | inr less ↦ inr (
            allocate-Answers fuel net peer family (advance_counter family b) (advanced family b v)
              (omega (arith, less, h)))
      ])

-- peerIPLocked always answers: with fuel for the candidates of the family that are left, the search
-- finds one that is free or ends with its error.
pub peer_ip_total :
    (fuel : ℕ) (net : NetIp) (peer : Str) (family : ℕ) (b : Book)
    → CountersFit b
    → left_over family b < fuel
    → (r : IpResult) × (c : Book) × (peer_ip fuel net peer family b ≡ some (r, c))
unfolding peer_ip literal_or_name_ip name_ip
peer_ip_total fuel net peer family b v h = literal_or_name (parse_literal_ip net peer)
  where
    name : (o : Option Ip) → Answers (name_ip fuel net peer family o b)
    name (some ip) = (_, _, refl)
    name none = allocate-Answers fuel net peer family b v h

    literal_or_name : (o : Option Ip) → Answers (literal_or_name_ip fuel net peer family o b)
    literal_or_name (some ip) =
        if_cases Answers (mismatch ip family) _ _ (λ _. (_, _, refl)) (λ _. (_, _, refl))
    literal_or_name none = name (ip_of peer family b.peer_ips)

pub canonical_peer-CountersFit :
    (net : NetIp) (host : Str) (b : Book)
    → CountersFit b
    → CountersFit (canonical_peer net host b).1
unfolding canonical_peer canonical_literal canonical_owner own
canonical_peer-CountersFit net host b v = literal (parse_literal_ip net host)
  where
    owner : (key : Str) (o : Option Str) → CountersFit (canonical_owner key o b).1
    owner key none = v
    owner key (some p) = v

    literal : (o : Option Ip) → CountersFit (canonical_literal net host o b).1
    literal none = v
    literal (some ip) = owner (net.text ip) (owner_of (net.text ip) b.ip_owners)

pub left_over_bound : (family : ℕ) (b : Book) → left_over family b < word
left_over_bound family b =
    if_cases (λ (x : ℕ). x < word) (family == 4) _ _ (λ _. omega arith) (λ _. omega arith)
