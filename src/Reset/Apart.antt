-- ===== src/Reset/Apart.antt =====
-- reset.go: what Reset does to each connection.
use netchaos.Base.{
  ℕ, zero, suc, ◌≡◌, refl, sym, ap, ◌∙◌, inl, inr, true, false, Option, none, some, List, [], ◌∷◌,
  ◌++◌, map, get_elem?, ◌==◌, ==_iff, if◌then◌else◌, if_chosen, if_skipped, Bool-cases, subst,
  arith,
}
use mathlib.Core.Option.{some-injective}
use netchaos.Rand.{Side}
use netchaos.Conn.{Link, signal_reset, abort_reset, reset_actions, run_actions}
use netchaos.Conn.Steps.{LinkStep, LinkReach}
use netchaos.Conn.Partway.{Partway, acting, meanwhile, Covered, resetting, Partway-LinkReach}
use netchaos.Reset.{
  ConnRef, Established, modify, TargetAction, action_on, take_actions, target_actions,
  reset_targets,
}

abbrev pub map_link : (Link → Link) → Option Established → Option Established
map_link f none = none
map_link f (some e) = some (record e { link = f e.link })

-- The ends of one connection, among many.
unfoldable pub sides_of : ℕ → List ConnRef → List Side
sides_of i [] = []
sides_of i (c ∷ cs) = let rest = sides_of i cs in if c.link == i then c.side ∷ rest else rest

pub get_elem?-modify :
    (i j : ℕ) (f : Link → Link) (es : List Established)
    → get_elem? (modify i f es) j ≡ (if i == j then map_link f (get_elem? es j) else get_elem? es j)
unfolding modify
get_elem?-modify i j f [] = ground arith
get_elem?-modify zero zero f (e ∷ es) = ground arith
get_elem?-modify zero (suc j) f (e ∷ es) = ground arith
get_elem?-modify (suc i) zero f (e ∷ es) = ground arith
get_elem?-modify (suc i) (suc j) f (e ∷ es) = ground (arith, get_elem?-modify i j f es)

-- The actions on one connection, among many.
unfoldable pub link_actions : ℕ → List TargetAction → List (Link → Link)
link_actions i [] = []
link_actions i (a ∷ acts) =
    let rest = link_actions i acts in if a.link == i then a.run ∷ rest else rest

link_actions-append :
    (i : ℕ) (acts bs : List TargetAction)
    → link_actions i (acts ++ bs) ≡ link_actions i acts ++ link_actions i bs
unfolding link_actions
link_actions-append i [] bs = refl
link_actions-append i (a ∷ acts) bs = ground (arith, link_actions-append i acts bs)

link_actions-map :
    (f : Side → Link → Link) (i : ℕ) (cs : List ConnRef)
    → link_actions i (map (action_on f) cs) ≡ map f (sides_of i cs)
unfolding link_actions action_on sides_of
link_actions-map f i [] = refl
link_actions-map f i (c ∷ cs) = ground (arith, link_actions-map f i cs)

-- Of the two loops over all the targets, those of one connection's ends are left.
link_actions-target_actions :
    (i : ℕ) (cs : List ConnRef) → link_actions i (target_actions cs) ≡ reset_actions (sides_of i cs)
unfolding target_actions reset_actions
link_actions-target_actions i cs =
    link_actions-append i (map (action_on signal_reset) cs) (map (action_on abort_reset) cs)
    ∙ (λ j. link_actions-map signal_reset i cs j ++ link_actions-map abort_reset i cs j)

-- From the first connections to the second, some of the actions have been taken, in their order,
-- with steps of the goroutines of any connection in between.
pub data Underway : List TargetAction → List Established → List Established → Type 0 where
  stopped : (acts : List TargetAction) (es : List Established) → Underway acts es es
  taking :
      (a : TargetAction) {acts : List TargetAction} {es fs : List Established}
      → Underway acts (modify a.link a.run es) fs
      → Underway (a ∷ acts) es fs
  elsewhere :
      (i : ℕ) (e : Established) (l : Link) {acts : List TargetAction} {es fs : List Established}
      → get_elem? es i ≡ some e
      → LinkStep e.link l
      → Underway acts (modify i (λ _. l) es) fs
      → Underway acts es fs

pub take_actions-Underway :
    (acts : List TargetAction) (es : List Established) → Underway acts es (take_actions acts es)
unfolding take_actions
take_actions-Underway [] es = stopped [] es
take_actions-Underway (a ∷ acts) es = taking a (take_actions-Underway acts (modify a.link a.run es))

modified :
    (i j : ℕ) (f : Link → Link) (es : List Established) (e : Established)
    → (i == j) ≡ true
    → get_elem? es j ≡ some e
    → get_elem? (modify i f es) j ≡ some (record e { link = f e.link })
modified i j f es e same found =
    get_elem?-modify i j f es
    ∙ if_chosen _ same (map_link f (get_elem? es j)) _
    ∙ ap (map_link f) found

unmodified :
    (i j : ℕ) (f : Link → Link) (es : List Established) (e : Established)
    → (i == j) ≡ false
    → get_elem? es j ≡ some e
    → get_elem? (modify i f es) j ≡ some e
unmodified i j f es e other found =
    get_elem?-modify i j f es ∙ if_skipped _ other (map_link f (get_elem? es j)) _ ∙ found

-- A connection, part of the way through the actions on it.
abbrev Along : ℕ → List TargetAction → Established → List Established → Type 0
Along i acts e fs =
    (m : Link) × (get_elem? fs i ≡ some (record e { link = m }))
    × Partway (link_actions i acts) e.link m

Underway-Along :
    (i : ℕ) {acts : List TargetAction} {es fs : List Established} (e : Established)
    → Underway acts es fs
    → get_elem? es i ≡ some e
    → Along i acts e fs
unfolding link_actions
Underway-Along i e (stopped acts es) found =
    (e.link, found, Partway.stopped (link_actions i acts) e.link)
Underway-Along i e (taking a {acts} {es} {fs} u) found = elim (Bool-cases (a.link == i)) [
  | inl same ↦
      let (m, g, p) =
        Underway-Along i (record e { link = a.run e.link }) u
          (modified a.link i a.run es e same found) in
      (
        m,
        g,
        subst (λ (gs : List (Link → Link)). Partway gs e.link m)
            (sym (if_chosen (a.link == i) same (a.run ∷ link_actions i acts) (link_actions i acts)))
            (acting a.run p),
      )
  | inr other ↦
      let (m, g, p) = Underway-Along i e u (unmodified a.link i a.run es e other found) in
      (
        m,
        g,
        subst (λ (gs : List (Link → Link)). Partway gs e.link m)
            (sym
              (if_skipped (a.link == i) other (a.run ∷ link_actions i acts) (link_actions i acts)))
            p,
      )
]
Underway-Along i e (elsewhere j x l {acts} {es} {fs} at_j step u) found =
    elim (Bool-cases (j == i)) [
      | inl same ↦
          let (m, g, p) =
            Underway-Along i (record e { link = l }) u (modified j i (λ _. l) es e same found) in
          let is : x ≡ e =
            some-injective x e (sym at_j ∙ ap (get_elem? es) ((==_iff j i).0 same) ∙ found) in
          (m, g, meanwhile (subst (λ (y : Established). LinkStep y.link l) is step) p)
      | inr other ↦ Underway-Along i e u (unmodified j i (λ _. l) es e other found)
    ]

get_elem?-take_actions :
    (acts : List TargetAction) (es : List Established) (i : ℕ) (e : Established)
    → get_elem? es i ≡ some e
    → get_elem? (take_actions acts es) i
      ≡ some (record e { link = run_actions (link_actions i acts) e.link })
unfolding take_actions link_actions run_actions
get_elem?-take_actions [] es i e found = found
get_elem?-take_actions (a ∷ acts) es i e found = elim (Bool-cases (a.link == i)) [
  | inl same ↦
      get_elem?-take_actions acts (modify a.link a.run es) i (record e { link = a.run e.link })
        (modified a.link i a.run es e same found)
      ∙ ap (λ gs. some (record e { link = run_actions gs e.link }))
          (sym (if_chosen (a.link == i) same (a.run ∷ link_actions i acts) (link_actions i acts)))
  | inr other ↦
      get_elem?-take_actions acts (modify a.link a.run es) i e
        (unmodified a.link i a.run es e other found)
      ∙ ap (λ gs. some (record e { link = run_actions gs e.link }))
          (sym (if_skipped (a.link == i) other (a.run ∷ link_actions i acts) (link_actions i acts)))
]

pub get_elem?-run_targets :
    (cs : List ConnRef) (es : List Established) (i : ℕ) (e : Established)
    → get_elem? es i ≡ some e
    → get_elem? (reset_targets cs es) i
      ≡ some (record e { link = run_actions (reset_actions (sides_of i cs)) e.link })
unfolding reset_targets
get_elem?-run_targets cs es i e found =
    get_elem?-take_actions (target_actions cs) es i e found
    ∙ ap (λ gs. some (record e { link = run_actions gs e.link })) (link_actions-target_actions i cs)

-- At each point of a Reset, whatever the goroutines of all connections do in between, a connection is
-- one that the steps of its own goroutines reach, provided that the peer of each of its ends that
-- are targets is a target too or is closed: Reset aborts no pipe of it until all its targets are
-- signaled. With nothing in
-- between, Reset makes of it what signaling and then aborting its targets in the order of the
-- registry makes, whichever targets of other connections come in between.
pub get_elem?-reset_targets :
    (cs : List ConnRef) (es fs : List Established) (i : ℕ) (e : Established)
    → get_elem? es i ≡ some e
    → Covered (sides_of i cs) e.link
    → Underway (target_actions cs) es fs
    → ((m : Link) × (get_elem? fs i ≡ some (record e { link = m })) × LinkReach e.link m)
      × (get_elem? (reset_targets cs es) i
          ≡ some (record e { link = run_actions (reset_actions (sides_of i cs)) e.link }))
get_elem?-reset_targets cs es fs i e found c u =
    let (m, g, p) = Underway-Along i e u found in
    let q = subst (λ gs. Partway gs e.link m) (link_actions-target_actions i cs) p in
    (
      (m, g, Partway-LinkReach (resetting (sides_of i cs) c) q),
      get_elem?-run_targets cs es i e found,
    )
