-- ===== src/Book/Owners.antt =====
-- addressing.go: which peer an address belongs to.
use netchaos.Base.{
  ℕ, zero, suc, ◌≡◌, refl, sym, ap, ◌∙◌, ◌⊎◌, inl, inr, Bool, true, false, ◌&&◌, Option, none, some,
  ◌==◌, if◌then◌else◌, arith, if_cases, along_some,
}
use mathlib.Core.Option.{some-injective}
use netchaos.Peers.{Str, eq_str}
use netchaos.Peers.Pairs.{eq_str_iff}
use netchaos.Addr.{Ip, NetIp, parse_literal_ip, is_some}
use netchaos.Book.{
  Book, new_book, owner_of, ip_of, own, canonical_owner, canonical_literal, canonical_peer,
  IpResult, candidate, advance_counter, assign, take_candidate, allocate, mismatch, name_ip,
  literal_or_name_ip, peer_ip,
}

-- Every address that was assigned has its peer as the owner of its text.
abbrev pub Owned : NetIp → Book → Type 0
Owned net b =
    (p : Str) (f : ℕ) (ip : Ip)
    → ip_of p f b.peer_ips ≡ some ip
    → owner_of (net.text ip) b.ip_owners ≡ some p

owner_of-own :
    (key owner k : Str) (b : Book)
    → owner_of k (own key owner b).ip_owners
      ≡ (if eq_str key k then some owner else owner_of k b.ip_owners)
unfolding owner_of own
owner_of-own key owner k b = refl

-- A text that has no owner, or this one, may be given to it.
own-Owned :
    (net : NetIp) (key owner : Str) (b : Book)
    → (owner_of key b.ip_owners ≡ none) ⊎ (owner_of key b.ip_owners ≡ some owner)
    → Owned net b
    → Owned net (own key owner b)
unfolding own owner_of
own-Owned net key owner b free v p f ip e =
    let old = v p f ip e in
    if_cases (λ (o : Option Str). o ≡ some p) (eq_str key (net.text ip)) _ _
      (λ same.
        let at_key : owner_of key b.ip_owners ≡ some p =
          ap (λ k. owner_of k b.ip_owners) ((eq_str_iff key (net.text ip)).0 same) ∙ old in
        ground arith)
      (λ _. old)

canonical_owner-Owned :
    (net : NetIp) (key : Str) (o : Option Str) (b : Book)
    → owner_of key b.ip_owners ≡ o
    → Owned net b
    → Owned net (canonical_owner key o b).1
unfolding canonical_owner
canonical_owner-Owned net key none b e v = own-Owned net key key b (inl e) v
canonical_owner-Owned net key (some o) b e v = v

canonical_literal-Owned :
    (net : NetIp) (host : Str) (o : Option Ip) (b : Book)
    → Owned net b
    → Owned net (canonical_literal net host o b).1
unfolding canonical_literal
canonical_literal-Owned net host none b v = v
canonical_literal-Owned net host (some ip) b v =
    canonical_owner-Owned net (net.text ip) (owner_of (net.text ip) b.ip_owners) b refl v

advance_counter-kept :
    (family : ℕ) (b : Book)
    → ((advance_counter family b).ip_owners ≡ b.ip_owners)
      × ((advance_counter family b).peer_ips ≡ b.peer_ips)
unfolding advance_counter
advance_counter-kept family b =
    if_cases (λ (c : Book). (c.ip_owners ≡ b.ip_owners) × (c.peer_ips ≡ b.peer_ips)) (family == 4) _
      _ (λ _. (refl, refl)) (λ _. (refl, refl))

advance_counter-Owned :
    (net : NetIp) (family : ℕ) (b : Book) → Owned net b → Owned net (advance_counter family b)
unfolding advance_counter
advance_counter-Owned net family b v = if_cases (Owned net) (family == 4) _ _ (λ _. v) (λ _. v)

and_left : (a b : Bool) → (a && b) ≡ true → a ≡ true
and_left a b e = ground arith

if_true : (b : Bool) → b ≡ true → (x y : Option Str) → (if b then x else y) ≡ x
if_true b e x y = ground arith

assign-Owned :
    (net : NetIp) (peer : Str) (family : ℕ) (ip : Ip) (b : Book)
    → owner_of (net.text ip) b.ip_owners ≡ none
    → Owned net b
    → Owned net (assign net peer family ip b)
unfolding assign ip_of
assign-Owned net peer family ip b free v p f jp =
    if_cases
      (λ (o : Option Ip).
        o ≡ some jp → owner_of (net.text jp) (own (net.text ip) peer b).ip_owners ≡ some p)
      (eq_str peer p && (family == f)) _ _
      (λ same e.
        let mine : peer ≡ p = (eq_str_iff peer p).0 (and_left (eq_str peer p) (family == f) same) in
        along_some (λ (x : Ip). owner_of (net.text x) (own (net.text ip) peer b).ip_owners ≡ some p)
          e
          (owner_of-own (net.text ip) peer (net.text ip) b
            ∙ if_true (eq_str (net.text ip) (net.text ip))
                ((eq_str_iff (net.text ip) (net.text ip)).1 refl) (some peer) _
            ∙ ap some mine))
      (λ _ e. own-Owned net (net.text ip) peer b (inl free) v p f jp e)

no_owner : (o : Option Str) → is_some o ≡ false → o ≡ none
no_owner none e = refl
no_owner (some p) e = cc

take_candidate-Owned :
    (net : NetIp) (peer : Str) (family : ℕ) (o : Option Ip) (d c : Book) (r : IpResult)
    (again : Option (IpResult × Book))
    → Owned net d
    → (again ≡ some (r, c) → Owned net c)
    → take_candidate net peer family o d again ≡ some (r, c)
    → Owned net c
unfolding take_candidate
take_candidate-Owned net peer family none d c r again w rest =
    λ e. along_some (λ (x : IpResult × Book). Owned net x.1) e w
take_candidate-Owned net peer family (some ip) d c r again w rest =
    if_cases (λ (o : Option (IpResult × Book)). o ≡ some (r, c) → Owned net c)
      (is_some (owner_of (net.text ip) d.ip_owners)) again _ (λ _. rest)
      (λ e h.
        along_some (λ (x : IpResult × Book). Owned net x.1) h
          (assign-Owned net peer family ip d (no_owner (owner_of (net.text ip) d.ip_owners) e) w))

allocate-Owned :
    (fuel : ℕ) (net : NetIp) (peer : Str) (family : ℕ) (b c : Book) (r : IpResult)
    → Owned net b
    → allocate fuel net peer family b ≡ some (r, c)
    → Owned net c
unfolding allocate
allocate-Owned zero net peer family b c r v = λ e. cc
allocate-Owned (suc fuel) net peer family b c r v =
    let w = advance_counter-Owned net family b v in
    take_candidate-Owned net peer family (candidate family b) (advance_counter family b) c r _ w
      (allocate-Owned fuel net peer family (advance_counter family b) c r w)

-- The peers that peerIPLocked is called with: a literal is the owner of its own text.
abbrev pub Canonical : NetIp → Str → Book → Type 0
Canonical net peer b =
    (parse_literal_ip net peer ≡ none)
    ⊎ ((ip : Ip) × (parse_literal_ip net peer ≡ some ip)
        × (owner_of (net.text ip) b.ip_owners ≡ some peer))

peer_ip-Owned :
    (fuel : ℕ) (net : NetIp) (peer : Str) (family : ℕ) (b c : Book) (r : IpResult)
    → Canonical net peer b
    → Owned net b
    → peer_ip fuel net peer family b ≡ some (r, c)
    → Owned net c
unfolding peer_ip literal_or_name_ip name_ip
peer_ip-Owned fuel net peer family b c r k v = elim k [
  | inl none_is ↦ λ e.
      named (ip_of peer family b.peer_ips)
        (sym (ap (λ o. literal_or_name_ip fuel net peer family o b) none_is) ∙ e)
  | inr lit ↦ λ e.
      literal lit.0 lit.2 (sym (ap (λ o. literal_or_name_ip fuel net peer family o b) lit.1) ∙ e)
]
  where
    Good : IpResult × Book → Type 0
    Good x = Owned net x.1

    named : (o : Option Ip) → name_ip fuel net peer family o b ≡ some (r, c) → Owned net c
    named (some ip) e = along_some Good e v
    named none e = allocate-Owned fuel net peer family b c r v e

    literal :
        (ip : Ip)
        → owner_of (net.text ip) b.ip_owners ≡ some peer
        → literal_or_name_ip fuel net peer family (some ip) b ≡ some (r, c)
        → Owned net c
    literal ip mine =
        if_cases (λ (o : Option (IpResult × Book)). o ≡ some (r, c) → Owned net c)
          (mismatch ip family) _ _ (λ _ e. along_some Good e v)
          (λ _ e. along_some Good e (own-Owned net (net.text ip) peer b (inr mine) v))

-- What the Network does with its book, under its mutex.
pub data BookStep (net : NetIp) : Book → Book → Type 0 where
  resolving : (host : Str) (b : Book) → BookStep net b (canonical_peer net host b).1
  assigning :
      (fuel : ℕ) (peer : Str) (family : ℕ) (b c : Book) (r : IpResult)
      → Canonical net peer b
      → peer_ip fuel net peer family b ≡ some (r, c)
      → BookStep net b c

pub data BookReach (net : NetIp) (b : Book) : Book → Type 0 where
  here : BookReach net b b
  then_step : {c d : Book} → BookReach net b c → BookStep net c d → BookReach net b d

BookStep-Owned : {net : NetIp} {b c : Book} → BookStep net b c → Owned net b → Owned net c
unfolding canonical_peer
BookStep-Owned {net} (resolving host b) v =
    canonical_literal-Owned net host (parse_literal_ip net host) b v
BookStep-Owned {net} (assigning fuel peer family b c r k e) v =
    peer_ip-Owned fuel net peer family b c r k v e

BookReach-Owned : {net : NetIp} {b c : Book} → Owned net b → BookReach net b c → Owned net c
BookReach-Owned v here = v
BookReach-Owned v (then_step r s) = BookStep-Owned s (BookReach-Owned v r)

new_book-Owned : (net : NetIp) → Owned net new_book
unfolding new_book ip_of
new_book-Owned net p f ip e = cc

-- However names are resolved and addresses assigned, two peers never get addresses with the same
-- text, and an address that was assigned resolves back to its peer (where netip reads it back from
-- its text), with nothing changed.
pub new_book-BookReach :
    (net : NetIp) (b : Book) (p q : Str) (f g : ℕ) (ip jp : Ip)
    → BookReach net new_book b
    → ip_of p f b.peer_ips ≡ some ip
    → ip_of q g b.peer_ips ≡ some jp
    → net.text ip ≡ net.text jp
    → parse_literal_ip net (net.text ip) ≡ some ip
    → (p ≡ q) × (canonical_peer net (net.text ip) b ≡ (p, b))
unfolding canonical_peer canonical_literal canonical_owner
new_book-BookReach net b p q f g ip jp reach at_p at_q same back =
    let v = BookReach-Owned (new_book-Owned net) reach in
    let p_owns = v p f ip at_p in
    let q_owns = v q g jp at_q in
    (
      some-injective p q (sym p_owns ∙ ap (λ k. owner_of k b.ip_owners) same ∙ q_owns),
      simp (back, p_owns),
    )
