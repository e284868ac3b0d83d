-- ===== src/Reset/Refs.antt =====
-- reset.go: the ends that the registry holds.
use netchaos.Base.{
  ◌≡◌, refl, sym, ap, ◌∙◌, ◌↔◌, inl, inr, Bool, true, false, ◌||◌, Option, none, some, List, [],
  ◌∷◌, ◌++◌, if◌then◌else◌, arith, if_cases, Bool-cases, >>=-eq-some, along_some, subst, if_chosen,
  if_skipped,
}
use netchaos.Rand.{Side, dialer, acceptor}
use netchaos.Peers.{PairKey, eq_pair}
use netchaos.Peers.Pairs.{eq_pair_iff}
use netchaos.Reset.{
  ConnRef, Targets, eq_side, eq_ref, targets_of, delete_targets, set_targets, register_reset,
  without, assign_found, deregister_reset,
}

unfoldable pub has_ref : ConnRef → List ConnRef → Bool
has_ref c [] = false
has_ref c (t ∷ ts) = eq_ref t c || has_ref c ts

pub eq_side_iff : (s t : Side) → (eq_side s t ≡ true) ↔ (s ≡ t)
unfolding eq_side
eq_side_iff dialer dialer = ((λ _. refl), (λ _. refl))
eq_side_iff dialer acceptor = ((λ e. cc), (λ e. cc))
eq_side_iff acceptor dialer = ((λ e. cc), (λ e. cc))
eq_side_iff acceptor acceptor = ((λ _. refl), (λ _. refl))

pub eq_ref_iff : (c d : ConnRef) → (eq_ref c d ≡ true) ↔ (c ≡ d)
unfolding eq_ref
eq_ref_iff c d = ground (arith, eq_side_iff c.side d.side)

pub targets_of-set_targets :
    (k m : PairKey) (cs : List ConnRef) (ts : List Targets)
    → targets_of m (set_targets k cs ts) ≡ (if eq_pair k m then cs else targets_of m ts)
unfolding targets_of set_targets
targets_of-set_targets k m cs ts = refl

pub targets_of-delete_targets :
    (k m : PairKey) (ts : List Targets)
    → targets_of m (delete_targets k ts) ≡ (if eq_pair k m then [] else targets_of m ts)
unfolding targets_of delete_targets
targets_of-delete_targets k m [] = ground arith
targets_of-delete_targets k m (t ∷ ts) = ground (
  arith,
  targets_of-delete_targets k m ts,
  eq_pair_iff t.pair k,
  eq_pair_iff t.pair m,
  eq_pair_iff k m,
)

pub has_ref-append :
    (c : ConnRef) (xs ys : List ConnRef) → has_ref c (xs ++ ys) ≡ (has_ref c xs || has_ref c ys)
unfolding has_ref
has_ref-append c [] ys = refl
has_ref-append c (x ∷ xs) ys = ground (arith, has_ref-append c xs ys)

-- What is left without an end: no more, and all the others.
abbrev Rest : ConnRef → List ConnRef → List ConnRef → Type 0
Rest c cs r =
    (d : ConnRef)
    → (has_ref d r ≡ true → has_ref d cs ≡ true)
      × (has_ref d cs ≡ true → eq_ref c d ≡ false → has_ref d r ≡ true)

without-Rest : (c : ConnRef) (cs r : List ConnRef) → without c cs ≡ some r → Rest c cs r
unfolding without has_ref
without-Rest c [] r = λ e. cc
without-Rest c (t ∷ ts) r =
    if_cases (λ (o : Option (List ConnRef)). o ≡ some r → Rest c (t ∷ ts) r) (eq_ref t c) _ _
      (λ same e. along_some (Rest c (t ∷ ts)) e (λ d. (
        (λ h. ground arith),
        (λ h other. ground (arith, eq_ref_iff t c, eq_ref_iff t d, eq_ref_iff c d)),
      )))
      (λ other e.
        let (x, at, f) = >>=-eq-some (without c ts) (λ r. some (t ∷ r)) e in
        along_some (Rest c (t ∷ ts)) f (λ d.
          let v = without-Rest c ts x at d in ((λ h. ground arith), (λ h differ. ground arith))))

abbrev pub Kept : ConnRef → PairKey → List Targets → List Targets → Type 0
Kept c k ts us =
    (m : PairKey) (d : ConnRef)
    → (has_ref d (targets_of m us) ≡ true → has_ref d (targets_of m ts) ≡ true)
      × (has_ref d (targets_of m ts) ≡ true
          → eq_ref c d ≡ false
          → has_ref d (targets_of m us) ≡ true)

assign_found-Kept :
    (c : ConnRef) (k : PairKey) (ts : List Targets) (o : Option (List ConnRef))
    → ((r : List ConnRef) → o ≡ some r → Rest c (targets_of k ts) r)
    → Kept c k ts (assign_found k o ts)
unfolding assign_found targets_of set_targets
assign_found-Kept c k ts none v m d = ((λ h. h), (λ h _. h))
assign_found-Kept c k ts (some r) v m d =
    if_cases
      (λ (us : List ConnRef).
        (has_ref d us ≡ true → has_ref d (targets_of m ts) ≡ true)
        × (has_ref d (targets_of m ts) ≡ true → eq_ref c d ≡ false → has_ref d us ≡ true))
      (eq_pair k m) r (targets_of m ts)
      (λ same.
        subst
          (λ (x : PairKey).
            (has_ref d r ≡ true → has_ref d (targets_of x ts) ≡ true)
            × (has_ref d (targets_of x ts) ≡ true → eq_ref c d ≡ false → has_ref d r ≡ true))
          ((eq_pair_iff k m).0 same) (v r refl d))
      (λ _. ((λ h. h), (λ h _. h)))

-- Deregistering an end takes no other away, and adds none.
pub deregister_reset-Kept :
    (c : ConnRef) (k : PairKey) (ts : List Targets) → Kept c k ts (deregister_reset k c ts)
unfolding deregister_reset
deregister_reset-Kept c k ts =
    assign_found-Kept c k ts (without c (targets_of k ts)) (without-Rest c (targets_of k ts))

-- What a Reset takes is what the registry then lacks.
pub taken_targets :
    (k m : PairKey) (c : ConnRef) (ts : List Targets) (rs : List ConnRef)
    → (has_ref c (targets_of m ts) || has_ref c rs) ≡ true
    → (has_ref c (targets_of m (delete_targets k ts)) || has_ref c (rs ++ targets_of k ts)) ≡ true
unfolding has_ref
taken_targets k m c ts rs h =
    subst (λ (l : List ConnRef). (has_ref c l || has_ref c (rs ++ targets_of k ts)) ≡ true)
      (sym (targets_of-delete_targets k m ts))
      (if_cases (λ (l : List ConnRef). (has_ref c l || has_ref c (rs ++ targets_of k ts)) ≡ true)
        (eq_pair k m) [] (targets_of m ts)
        (λ same.
          let e : has_ref c (targets_of k ts) ≡ has_ref c (targets_of m ts) =
            ap (λ x. has_ref c (targets_of x ts)) ((eq_pair_iff k m).0 same) in
          ground (arith, has_ref-append c rs (targets_of k ts)))
        (λ _. ground (arith, has_ref-append c rs (targets_of k ts))))

pub not_deleted :
    (k m : PairKey) (c : ConnRef) (ts : List Targets)
    → has_ref c (targets_of m (delete_targets k ts)) ≡ true
    → has_ref c (targets_of m ts) ≡ true
unfolding has_ref
not_deleted k m c ts h =
    if_cases (λ (l : List ConnRef). has_ref c l ≡ true → has_ref c (targets_of m ts) ≡ true)
      (eq_pair k m) [] (targets_of m ts) (λ _ e. cc) (λ _ e. e)
      (subst (λ (l : List ConnRef). has_ref c l ≡ true) (targets_of-delete_targets k m ts) h)

-- Of a list of ends, one that is taken out is the only one that may be missing.
pub has_ref-middle :
    (c d : ConnRef) (xs ys : List ConnRef)
    → eq_ref c d ≡ false
    → has_ref d (xs ++ c ∷ ys) ≡ has_ref d (xs ++ ys)
unfolding has_ref
has_ref-middle c d xs ys differ =
    ground (arith, has_ref-append d xs (c ∷ ys), has_ref-append d xs ys)

pub has_ref-register_reset :
    (k m : PairKey) (c : ConnRef) (cs : List ConnRef) (ts : List Targets)
    → has_ref c (targets_of m (register_reset k cs ts)) ≡ (
        if eq_pair k m
        then has_ref c (targets_of m ts) || has_ref c cs
        else has_ref c (targets_of m ts))
unfolding register_reset targets_of set_targets
has_ref-register_reset k m c cs ts = elim (Bool-cases (eq_pair k m)) [
  | inl same ↦
      ap (has_ref c) (if_chosen _ same (targets_of k ts ++ cs) _)
      ∙ has_ref-append c (targets_of k ts) cs
      ∙ ap (λ x. has_ref c (targets_of x ts) || has_ref c cs) ((eq_pair_iff k m).0 same)
      ∙ sym (if_chosen _ same _ _)
  | inr other ↦
      ap (has_ref c) (if_skipped _ other (targets_of k ts ++ cs) _) ∙ sym (if_skipped _ other _ _)
]
