-- ===== src/Conn/Partway.antt =====
-- Close and Reset of a connection at every point of their actions, whatever else goes on.
use netchaos.Base.{◌≡◌, ◌⊎◌, refl, inl, inr, sym, subst, true, List, [], ◌∷◌, ◌++◌, map, All}
use netchaos.Rand.{Side, dialer, acceptor}
use netchaos.Conn.{
  Link, peer, end, mark_closed, close_actions, signal_reset, abort_reset, reset_actions, set_end,
  run_actions,
}
use netchaos.Conn.Steps.{
  LinkStep, LinkReach, then_step, here, marking_closed, closing_write, aborting_read, stopping,
  signaling, aborting_reset, LinkStep-Flags,
}

-- From the first connection to the second, some of the actions have been taken, in their order, with
-- steps of other goroutines in between.
pub data Partway : List (Link → Link) → Link → Link → Type 0 where
  stopped : (fs : List (Link → Link)) (l : Link) → Partway fs l l
  acting :
      (f : Link → Link) {fs : List (Link → Link)} {l m : Link}
      → Partway fs (f l) m
      → Partway (f ∷ fs) l m
  meanwhile :
      {fs : List (Link → Link)} {l m r : Link} → LinkStep l m → Partway fs m r → Partway fs l r

abbrev Stable : (Link → Type 0) → Type 0
Stable G = (k r : Link) → LinkStep k r → G k → G r

-- Actions that are steps wherever a condition holds that no step ends.
guarded :
    (G : Link → Type 0) (fs : List (Link → Link)) {a l m : Link}
    → Stable G
    → All (λ (f : Link → Link). (k : Link) → G k → LinkStep k (f k)) fs
    → LinkReach a l
    → G l
    → Partway fs l m
    → LinkReach a m
guarded G fs stable each reached g (stopped gs l) = reached
guarded G (f ∷ fs) {l = l} stable each reached g (acting h p) =
    guarded G fs stable each.1 (then_step reached (each.0 l g)) (stable l _ (each.0 l g) g) p
guarded G fs {l = l} stable each reached g (meanwhile {m} s p) =
    guarded G fs stable each (then_step reached s) (stable l m s g) p

-- An action that is a step anywhere, ahead of others.
first :
    (G : Link → Type 0) (f : Link → Link) (fs : List (Link → Link)) {a l m : Link}
    → Stable G
    → ((k : Link) → LinkStep k (f k))
    → ((k : Link) → LinkReach a k → G k → Partway fs (f k) m → LinkReach a m)
    → LinkReach a l
    → G l
    → Partway (f ∷ fs) l m
    → LinkReach a m
first G f fs stable step rest reached g (stopped gs l) = reached
first G f fs {l = l} stable step rest reached g (acting h p) = rest l reached g p
first G f fs {l = l} stable step rest reached g (meanwhile {m} t p) =
    first G f fs stable step rest (then_step reached t) (stable l m t g) p

closed-mark_closed : (s : Side) (l : Link) → (end s (mark_closed s l)).closed ≡ true
unfolding mark_closed end set_end
closed-mark_closed dialer l = refl
closed-mark_closed acceptor l = refl

reset-signal_reset : (s : Side) (l : Link) → (end s (signal_reset s l)).reset ≡ true
unfolding signal_reset end set_end
reset-signal_reset dialer l = refl
reset-signal_reset acceptor l = refl

abbrev Closed : Side → Link → Type 0
Closed s l = (end s l).closed ≡ true

-- Close of an end that is open, at any of its points.
Partway-close : (s : Side) (l m : Link) → Partway (close_actions s) l m → LinkReach l m
unfolding close_actions
Partway-close s l m =
    first (λ k. Unit) (mark_closed s) _ (λ k r t g. tt) (marking_closed s)
      (λ k reached g.
        guarded (Closed s) _ (λ k r t. (LinkStep-Flags t s).0)
          (closing_write s, (aborting_read s, (stopping s, tt)))
          (then_step reached (marking_closed s k)) (closed-mark_closed s k))
      here tt

abbrev pub In : Side → List Side → Type 0
In s [] = ⊥
In s (t ∷ ts) = (s ≡ t) ⊎ In s ts

-- The peer of each end that is a target is a target too, or is closed.
abbrev pub Covered : List Side → Link → Type 0
Covered ss l = (s : Side) → In s ss → In (peer s) ss ⊎ ((end (peer s) l).closed ≡ true)

-- Once the targets are signaled: both pipes of each may be aborted.
abbrev Signaled : List Side → Link → Type 0
Signaled ss l =
    (s : Side)
    → In s ss
    → ((end s l).reset ≡ true)
      × (((end (peer s) l).reset ≡ true) ⊎ ((end (peer s) l).closed ≡ true))

Signaled-LinkStep : (ss : List Side) {l m : Link} → LinkStep l m → Signaled ss l → Signaled ss m
Signaled-LinkStep ss t g s i =
    let (own, other) = g s i in
    (
      (LinkStep-Flags t s).1 own,
      elim other [
        | inl reset ↦ inl ((LinkStep-Flags t (peer s)).1 reset)
        | inr closed ↦ inr ((LinkStep-Flags t (peer s)).0 closed)
      ],
    )

aborts-LinkStep :
    (all ss : List Side)
    → ((s : Side) → In s ss → In s all)
    → All (λ (f : Link → Link). (k : Link) → Signaled all k → LinkStep k (f k)) (map abort_reset ss)
aborts-LinkStep all [] sub = tt
aborts-LinkStep all (s ∷ ss) sub = (
  (λ k g. let (own, other) = g s (sub s (inl refl)) in aborting_reset s k own other),
  aborts-LinkStep all ss (λ t i. sub t (inr i)),
)

-- While the targets are signaled: those behind are up, and the others are still to come.
abbrev Signaling : List Side → List Side → Link → Type 0
Signaling all ss l = (s : Side) → In s all → ((end s l).reset ≡ true) ⊎ In s ss

Signaling-LinkStep :
    (all ss : List Side) {l m : Link} → LinkStep l m → Signaling all ss l → Signaling all ss m
Signaling-LinkStep all ss t g s i = elim (g s i) [
  | inl reset ↦ inl ((LinkStep-Flags t s).1 reset)
  | inr ahead ↦ inr ahead
]

Covered-LinkStep : (ss : List Side) {l m : Link} → LinkStep l m → Covered ss l → Covered ss m
Covered-LinkStep ss t c s i = elim (c s i) [
  | inl target ↦ inl target
  | inr closed ↦ inr ((LinkStep-Flags t (peer s)).0 closed)
]

signal_reset-Signaling :
    (all ss : List Side) (s : Side) (l : Link)
    → Signaling all (s ∷ ss) l
    → Signaling all ss (signal_reset s l)
signal_reset-Signaling all ss s l g t i = elim (g t i) [
  | inl reset ↦ inl ((LinkStep-Flags (signaling s l) t).1 reset)
  | inr (inl same) ↦ inl (
      subst (λ (x : Side). (end x (signal_reset s l)).reset ≡ true) (sym same)
        (reset-signal_reset s l))
  | inr (inr ahead) ↦ inr ahead
]

signals-Signaled :
    (all : List Side) (l : Link) → Covered all l → Signaling all [] l → Signaled all l
signals-Signaled all l c g s i =
    (up s i, elim (c s i) [ inl target ↦ inl (up (peer s) target) | inr closed ↦ inr closed ])
  where
    up : (t : Side) → In t all → (end t l).reset ≡ true
    up t j = elim (g t j) [ inl reset ↦ reset | inr none_ahead ↦ absurd none_ahead ]

signals-LinkReach :
    (all ss : List Side) {a l m : Link}
    → LinkReach a l
    → Covered all l
    → Signaling all ss l
    → Partway (map signal_reset ss ++ map abort_reset all) l m
    → LinkReach a m
signals-LinkReach all [] {l = l} reached c g =
    guarded (Signaled all) (map abort_reset all) (λ k r. Signaled-LinkStep all)
      (aborts-LinkStep all all (λ s i. i)) reached (signals-Signaled all l c g)
signals-LinkReach all (s ∷ ss) reached c g =
    first (λ k. Covered all k × Signaling all (s ∷ ss) k) (signal_reset s) _
      (λ k r t h. (Covered-LinkStep all t h.0, Signaling-LinkStep all (s ∷ ss) t h.1)) (signaling s)
      (λ k found h.
        signals-LinkReach all ss (then_step found (signaling s k))
          (Covered-LinkStep all (signaling s k) h.0) (signal_reset-Signaling all ss s k h.1))
      reached (c, g)

-- Reset of ends of one connection, at any of its points.
Partway-reset :
    (ss : List Side) (l m : Link) → Covered ss l → Partway (reset_actions ss) l m → LinkReach l m
unfolding reset_actions
Partway-reset ss l m c = signals-LinkReach ss ss here c (λ s i. inr i)

-- The actions of Close of an end that is open, or of a Reset.
pub data Ending (l : Link) : List (Link → Link) → Type 0 where
  closing : (s : Side) → Ending l (close_actions s)
  resetting : (ss : List Side) → Covered ss l → Ending l (reset_actions ss)

pub Partway-LinkReach :
    {fs : List (Link → Link)} {l m : Link} → Ending l fs → Partway fs l m → LinkReach l m
Partway-LinkReach {l = l} {m = m} (closing s) p = Partway-close s l m p
Partway-LinkReach {l = l} {m = m} (resetting ss c) p = Partway-reset ss l m c p

-- Taken to the end with nothing in between.
pub run_actions-Partway : (fs : List (Link → Link)) (l : Link) → Partway fs l (run_actions fs l)
unfolding run_actions
run_actions-Partway [] l = stopped [] l
run_actions-Partway (f ∷ fs) l = acting f (run_actions-Partway fs (f l))
