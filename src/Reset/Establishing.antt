-- ===== src/Reset/Establishing.antt =====
-- reset.go: the registry and the connections, when a dial establishes one.
use netchaos.Base.{
  ℕ, ◌≡◌, refl, sym, ap, ◌∙◌, ◌⊎◌, inl, inr, Bool, true, ◌||◌, some, List, [], ◌∷◌, ◌++◌, length,
  get_elem?, get_elem?-append, get_elem?-kept, get_elem?-length, if◌then◌else◌, arith, if_cases,
  Bool-cases, if_chosen, subst,
}
use netchaos.Rand.{Side, dialer, acceptor}
use netchaos.Peers.{PairKey, eq_pair}
use netchaos.Peers.Pairs.{eq_pair_iff}
use netchaos.Conn.{Link, end}
use netchaos.Reset.{ConnRef, Established, eq_ref, targets_of, register_reset, established_pair}
use netchaos.Reset.Refs.{has_ref, eq_ref_iff, has_ref-register_reset}
use netchaos.Reset.Running.{Running, with_conns, at, Live, Owns, RegisteredInv}

both_ends : (i : ℕ) → List ConnRef
both_ends i = at i dialer ∷ at i acceptor ∷ []

has_ref-both_ends : (i : ℕ) (s : Side) → has_ref (at i s) (both_ends i) ≡ true
unfolding has_ref both_ends
has_ref-both_ends i dialer = ground (arith, eq_ref_iff (at i dialer) (at i dialer))
has_ref-both_ends i acceptor = ground (arith, eq_ref_iff (at i acceptor) (at i acceptor))

link_of : (c : ConnRef) (i : ℕ) → has_ref c (both_ends i) ≡ true → c.link ≡ i
unfolding has_ref both_ends
link_of c i h = elim (Bool-cases (eq_ref (at i dialer) c)) [
  | inl e ↦ sym (ap (λ (x : ConnRef). x.link) ((eq_ref_iff (at i dialer) c).0 e))
  | inr f ↦
      let e : eq_ref (at i acceptor) c ≡ true = ground arith in
      sym (ap (λ (x : ConnRef). x.link) ((eq_ref_iff (at i acceptor) c).0 e))
]

pub establishing-Inv :
    (k : PairKey) (l : Link) (r : Running)
    → RegisteredInv r
    → RegisteredInv (record r { net = established_pair k l r.net })
unfolding established_pair both_ends
establishing-Inv k l r v = record {
  tracked = λ i s d g live. tracked_at i s d live (get_elem?-append r.net.conns new i d g);
  owned = λ m c h. owned_at m c (
      found m c
        (sym (has_ref-register_reset k m c (both_ends (length r.net.conns)) r.net.targets) ∙ h));
}
  where
    new : Established
    new = record { pair = k; link = l }

    number : ℕ
    number = length r.net.conns

    registered : PairKey → ConnRef → Bool
    registered m c = has_ref c (targets_of m (register_reset k (both_ends number) r.net.targets))

    kept :
        (m : PairKey) (c : ConnRef)
        → (has_ref c (targets_of m r.net.targets) || has_ref c r.resetting) ≡ true
        → (registered m c || has_ref c r.resetting) ≡ true
    kept m c h =
        ap (λ b. b || has_ref c r.resetting)
          (has_ref-register_reset k m c (both_ends number) r.net.targets)
        ∙ ground arith

    tracked_at :
        (i : ℕ) (s : Side) (d : Established)
        → Live (end s d.link)
        → (get_elem? r.net.conns i ≡ some d) ⊎ ((i ≡ number) × (new ≡ d))
        → (registered d.pair (at i s) || has_ref (at i s) r.resetting) ≡ true
    tracked_at i s d live (inl old) = kept d.pair (at i s) (v.tracked i s d old live)
    tracked_at i s d live (inr (last, is_new)) =
        subst
          (λ (x : Established). (registered x.pair (at i s) || has_ref (at i s) r.resetting) ≡ true)
          is_new
          (subst (λ (j : ℕ). (registered k (at j s) || has_ref (at j s) r.resetting) ≡ true)
            (sym last)
            (ap (λ b. b || has_ref (at number s) r.resetting)
                (has_ref-register_reset k k (at number s) (both_ends number) r.net.targets
                  ∙ if_chosen _ ((eq_pair_iff k k).1 refl) _ _)
              ∙ ground (arith, has_ref-both_ends number s)))

    Found : PairKey → ConnRef → Type 0
    Found m c = (has_ref c (targets_of m r.net.targets) ≡ true) ⊎ ((c.link ≡ number) × (k ≡ m))

    found :
        (m : PairKey) (c : ConnRef)
        → (if eq_pair k m
            then has_ref c (targets_of m r.net.targets) || has_ref c (both_ends number)
            else has_ref c (targets_of m r.net.targets))
          ≡ true
        → Found m c
    found m c =
        if_cases (λ (b : Bool). b ≡ true → Found m c) (eq_pair k m) _ _
          (λ same h. elim (Bool-cases (has_ref c (targets_of m r.net.targets))) [
            | inl e ↦ inl e
            | inr e ↦ inr (link_of c number (ground arith), (eq_pair_iff k m).0 same)
          ])
          (λ _ h. inl h)

    owned_at :
        (m : PairKey) (c : ConnRef)
        → Found m c
        → Owns (with_conns (r.net.conns ++ new ∷ []) r.net) m c
    owned_at m c (inl old) =
        let x = v.owned m c old in (x.0, get_elem?-kept r.net.conns new c.link x.0 x.1, x.2)
    owned_at m c (inr (last, same)) = (
      new,
      ap (get_elem? (r.net.conns ++ new ∷ [])) last ∙ get_elem?-length r.net.conns new,
      same,
    )
