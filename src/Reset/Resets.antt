-- ===== src/Reset/Resets.antt =====
-- reset.go: which connections a Reset terminates.
use netchaos.Base.{
  ℕ, ◌≡◌, ◌≢◌, refl, sym, ap, ◌∙◌, inl, inr, Bool, true, false, ◌||◌, some, List, [], ◌∷◌, ◌++◌,
  map, append-nil, get_elem?, if◌then◌else◌, arith, Bool-cases, subst,
}
use mathlib.Core.Option.{some-injective}
use netchaos.Rand.{Side, dialer, acceptor}
use netchaos.Peers.{PairKey, eq_pair}
use netchaos.Peers.Pairs.{eq_pair_iff}
use netchaos.Conn.{
  Link, new_conn_pair, end, signal_reset, set_end, abort_reset, reset_actions, run_actions,
}
use netchaos.Conn.Steps.{signaling, Flags, LinkStep-Flags, abort_reset-Flags}
use netchaos.Reset.{ConnRef, Established, eq_ref, targets_of, eq_side, reset_pair}
use netchaos.Reset.Refs.{has_ref, eq_ref_iff, targets_of-delete_targets, eq_side_iff}
use netchaos.Reset.Running.{
  Running, ResetStep, establishing, acting, deregistering, taking, signaling_one, ResetReach, here,
  then_step, idle, at, RegisteredInv,
}
use netchaos.Reset.Apart.{sides_of, get_elem?-run_targets}
use netchaos.Reset.Signaling.{acting-Inv, deregistering-Inv, taking-Inv, signaling-Inv}
use netchaos.Reset.Establishing.{establishing-Inv}

ResetStep-Inv : {r q : Running} → ResetStep r q → RegisteredInv r → RegisteredInv q
ResetStep-Inv (establishing k up down r) v = establishing-Inv k (new_conn_pair up down) r v
ResetStep-Inv (acting i e l r found step) v = acting-Inv i e l r found step v
ResetStep-Inv (deregistering c e r found closed) v = deregistering-Inv c e r found closed v
ResetStep-Inv (taking k r) v = taking-Inv k r v
ResetStep-Inv (signaling_one xs c ys r split) v = signaling-Inv xs c ys r split v

ResetReach-Inv : {r q : Running} → ResetReach r q → RegisteredInv r → RegisteredInv q
ResetReach-Inv here v = v
ResetReach-Inv (then_step r s) v = ResetStep-Inv s (ResetReach-Inv r v)

idle-Inv : RegisteredInv idle
unfolding targets_of has_ref
idle-Inv = record { tracked = λ i s e found live. cc; owned = λ k c h. absurd (no_target h) }
  where
    no_target : false ≡ true → ⊥
    no_target h = cc

unfoldable has_side : Side → List Side → Bool
has_side s [] = false
has_side s (t ∷ ts) = eq_side t s || has_side s ts

has_side-sides_of :
    (i : ℕ) (s : Side) (cs : List ConnRef)
    → has_ref (at i s) cs ≡ true
    → has_side s (sides_of i cs) ≡ true
unfolding has_ref sides_of has_side eq_ref
has_side-sides_of i s [] h = cc
has_side-sides_of i s (c ∷ cs) h = ground (arith, has_side-sides_of i s cs)

sides_of-eq-nil :
    (i : ℕ) (cs : List ConnRef)
    → ((c : ConnRef) → has_ref c cs ≡ true → c.link ≢ i)
    → sides_of i cs ≡ []
unfolding has_ref sides_of
sides_of-eq-nil i [] h = refl
sides_of-eq-nil i (c ∷ cs) h =
    let differ = h c (ground (arith, eq_ref_iff c c)) in
    let rest = sides_of-eq-nil i cs (λ d e. h d (ground arith)) in ground arith

unfoldable on_sides : (Side → Link → Link) → List Side → Link → Link
on_sides f [] l = l
on_sides f (s ∷ ss) l = on_sides f ss (f s l)

-- The ends of a connection that are targets are signaled, then the pipes of each are aborted.
unfoldable reset_ends : List Side → Link → Link
unfolding on_sides
reset_ends ss l = on_sides abort_reset ss (on_sides signal_reset ss l)

run_actions-map :
    (f : Side → Link → Link) (ss : List Side) (gs : List (Link → Link)) (l : Link)
    → run_actions (map f ss ++ gs) l ≡ run_actions gs (on_sides f ss l)
unfolding run_actions on_sides
run_actions-map f [] gs l = refl
run_actions-map f (s ∷ ss) gs l = run_actions-map f ss gs (f s l)

run_actions-reset_actions :
    (ss : List Side) (l : Link) → run_actions (reset_actions ss) l ≡ reset_ends ss l
unfolding reset_actions reset_ends run_actions
run_actions-reset_actions ss l =
    run_actions-map signal_reset ss (map abort_reset ss) l
    ∙ ap (λ gs. run_actions gs (on_sides signal_reset ss l)) (sym (append-nil (map abort_reset ss)))
    ∙ run_actions-map abort_reset ss [] (on_sides signal_reset ss l)

on_sides-Flags :
    (f : Side → Link → Link)
    → ((s t : Side) (l : Link) → Flags (end s l) (end s (f t l)))
    → (ss : List Side) (s : Side) (l : Link) → Flags (end s l) (end s (on_sides f ss l))
unfolding on_sides
on_sides-Flags f flags [] s l = ((λ h. h), (λ h. h))
on_sides-Flags f flags (t ∷ ts) s l =
    let g = flags s t l in
    let h = on_sides-Flags f flags ts s (f t l) in ((λ e. h.0 (g.0 e)), (λ e. h.1 (g.1 e)))

signal-Flags : (s t : Side) (l : Link) → Flags (end s l) (end s (signal_reset t l))
signal-Flags s t l = LinkStep-Flags (signaling t l) s

signal_reset-reset : (s : Side) (l : Link) → (end s (signal_reset s l)).reset ≡ true
unfolding signal_reset end set_end
signal_reset-reset dialer l = refl
signal_reset-reset acceptor l = refl

on_sides-reset :
    (ss : List Side) (s : Side) (l : Link)
    → has_side s ss ≡ true
    → (end s (on_sides signal_reset ss l)).reset ≡ true
unfolding on_sides has_side
on_sides-reset [] s l h = cc
on_sides-reset (t ∷ ts) s l h = elim (Bool-cases (eq_side t s)) [
  | inl same ↦ (on_sides-Flags signal_reset signal-Flags ts s (signal_reset t l)).1 (
      subst (λ (u : Side). (end s (signal_reset u l)).reset ≡ true) (sym ((eq_side_iff t s).0 same))
        (signal_reset-reset s l))
  | inr other ↦ on_sides-reset ts s (signal_reset t l) (ground arith)
]

-- A connection after a Reset, and before it: of the pair that was reset, or not.
abbrev pub AfterReset : Bool → Established → Established → Type 0
AfterReset true d e =
    (d.pair ≡ e.pair) × ((s : Side) → ((end s d.link).closed || (end s d.link).reset) ≡ true)
AfterReset false d e = d ≡ e

reset_ends-Flags :
    (ss : List Side) (s : Side) (l : Link) → Flags (end s l) (end s (reset_ends ss l))
unfolding reset_ends
reset_ends-Flags ss s l =
    let g = on_sides-Flags signal_reset signal-Flags ss s l in
    let h = on_sides-Flags abort_reset abort_reset-Flags ss s (on_sides signal_reset ss l) in
    ((λ e. h.0 (g.0 e)), (λ e. h.1 (g.1 e)))

reset_ends-reset :
    (ss : List Side) (s : Side) (l : Link)
    → has_side s ss ≡ true
    → (end s (reset_ends ss l)).reset ≡ true
unfolding reset_ends
reset_ends-reset ss s l h =
    (on_sides-Flags abort_reset abort_reset-Flags ss s (on_sides signal_reset ss l)).1
      (on_sides-reset ss s l h)

terminated :
    (r : Running) (k : PairKey) (i : ℕ) (e : Established) (s : Side)
    → RegisteredInv r
    → r.resetting ≡ []
    → get_elem? r.net.conns i ≡ some e
    → e.pair ≡ k
    → let l = reset_ends (sides_of i (targets_of k r.net.targets)) e.link in
      ((end s l).closed || (end s l).reset) ≡ true
unfolding has_ref
terminated r k i e s v settled found same =
    let ss = sides_of i (targets_of k r.net.targets) in
    let f = reset_ends-Flags ss s e.link in
    elim (Bool-cases (end s e.link).closed) [
      | inl closed ↦ (let c = f.0 closed in ground arith)
      | inr is_open ↦ elim (Bool-cases (end s e.link).reset) [
        | inl reset ↦ (let c = f.1 reset in ground arith)
        | inr unreset ↦
            let h =
              subst
                (λ (l : List ConnRef).
                  (has_ref (at i s) (targets_of e.pair r.net.targets) || has_ref (at i s) l) ≡ true)
                settled (v.tracked i s e found (is_open, unreset)) in
            let g : has_ref (at i s) (targets_of e.pair r.net.targets) ≡ true = ground arith in
            let here_too =
              subst (λ (p : PairKey). has_ref (at i s) (targets_of p r.net.targets) ≡ true) same
                g in
            let c =
              reset_ends-reset ss s e.link
                (has_side-sides_of i s (targets_of k r.net.targets) here_too) in
            ground arith
      ]
    ]

-- In every state that dials, Closes, Resets and the calls of the connections reach, interleaved in
-- any way, with no other Reset under way: after a Reset of a pair of peers, both ends of every
-- connection that was established between them are reset or closed, every other connection is as
-- it was, and the registry has no target left for the pair, and the same ones for the others.
pub idle-ResetReach :
    (r : Running) (k : PairKey) (i : ℕ) (e : Established)
    → ResetReach idle r
    → r.resetting ≡ []
    → get_elem? r.net.conns i ≡ some e
    → ((d : Established) × (get_elem? (reset_pair k r.net).conns i ≡ some d)
        × AfterReset (eq_pair e.pair k) d e)
      × ((m : PairKey)
          → targets_of m (reset_pair k r.net).targets
            ≡ (if eq_pair k m then [] else targets_of m r.net.targets))
unfolding reset_pair reset_ends on_sides
idle-ResetReach r k i e reach settled found = (
  (
    record e { link = reset_ends ss e.link },
    get_elem?-run_targets (targets_of k r.net.targets) r.net.conns i e found
        ∙ ap (λ l. some (record e { link = l })) (run_actions-reset_actions ss e.link),
    after (eq_pair e.pair k) refl,
  ),
  (λ m. targets_of-delete_targets k m r.net.targets),
)
  where
    v : RegisteredInv r
    v = ResetReach-Inv reach idle-Inv

    ss : List Side
    ss = sides_of i (targets_of k r.net.targets)

    foreign :
        eq_pair e.pair k ≡ false
        → (c : ConnRef) → has_ref c (targets_of k r.net.targets) ≡ true
        → c.link ≢ i
    foreign other c h same =
        let x = v.owned k c h in
        let is_e = some-injective x.0 e (sym x.1 ∙ ap (get_elem? r.net.conns) same ∙ found) in
        let both : true ≡ false =
          sym ((eq_pair_iff e.pair k).1 (ap (λ (y : Established). y.pair) (sym is_e) ∙ x.2))
          ∙ other in
        cc

    after :
        (b : Bool)
        → eq_pair e.pair k ≡ b
        → AfterReset b (record e { link = reset_ends ss e.link }) e
    after true same =
        (refl, (λ s. terminated r k i e s v settled found ((eq_pair_iff e.pair k).0 same)))
    after false other =
        ap (λ ts. record e { link = reset_ends ts e.link })
          (sides_of-eq-nil i (targets_of k r.net.targets) (foreign other))
