-- ===== src/Dial/Choice.antt =====
-- DialContext of netchaos.go: which listener a dial without a port reaches.
use netchaos.Base.{
  ℕ, ◌≡◌, ap, ◌∙◌, refl, sym, inl, inr, Bool, false, Option, none, some, List, [], ◌∷◌,
  if◌then◌else◌, arith, Bool-cases,
}
use netchaos.Addr.{NetIp}
use netchaos.Network.{Network}
use netchaos.Network.Ports.{socket_at}
use netchaos.Dial.Lookup.{
  sole, Target, find_listener, choose_listener, matches_at, matches, sockets_of,
}

-- One list with two neighbours swapped, or so on: the same entries in another order.
pub data Shuffled : List ℕ → List ℕ → Type 0 where
  same : (ss : List ℕ) → Shuffled ss ss
  swapped : (a b : ℕ) (ss : List ℕ) → Shuffled (a ∷ b ∷ ss) (b ∷ a ∷ ss)
  behind : (a : ℕ) {ss rs : List ℕ} → Shuffled ss rs → Shuffled (a ∷ ss) (a ∷ rs)
  then_shuffled : {ss rs qs : List ℕ} → Shuffled ss rs → Shuffled rs qs → Shuffled ss qs

-- The listeners that match, and the only one of a list.
unfoldable pub matching : (ℕ → Bool) → List ℕ → List ℕ
matching test [] = []
matching test (s ∷ ss) = let rest = matching test ss in if test s then s ∷ rest else rest

unfoldable pub only : List ℕ → Option ℕ
only [] = none
only (s ∷ []) = some s
only (s ∷ t ∷ ss) = none

sole-Shuffled :
    {ss rs : List ℕ} (test : ℕ → Bool) (found : Option ℕ)
    → Shuffled ss rs
    → sole test found ss ≡ sole test found rs
unfolding sole
sole-Shuffled test found (same ss) = refl
sole-Shuffled test none (swapped a b ss) = ground arith
sole-Shuffled test (some l) (swapped a b ss) = ground arith
sole-Shuffled test none (behind a r) =
    let with_it = sole-Shuffled test (some a) r in
    let without_it = sole-Shuffled test none r in ground arith
sole-Shuffled test (some l) (behind a r) = let rest = sole-Shuffled test (some l) r in ground arith
sole-Shuffled test found (then_shuffled r q) =
    sole-Shuffled test found r ∙ sole-Shuffled test found q

sole-some :
    (test : ℕ → Bool) (l : ℕ) (ss : List ℕ) → sole test (some l) ss ≡ only (l ∷ matching test ss)
unfolding sole matching only
sole-some test l [] = refl
sole-some test l (s ∷ ss) = elim (Bool-cases (test s)) [
  | inl e ↦ rw e refl
  | inr e ↦ rw e (sole-some test l ss)
]

sole-none : (test : ℕ → Bool) (ss : List ℕ) → sole test none ss ≡ only (matching test ss)
unfolding sole matching only
sole-none test [] = refl
sole-none test (s ∷ ss) = elim (Bool-cases (test s)) [
  | inl e ↦ rw e (sole-some test s ss)
  | inr e ↦ rw e (sole-none test ss)
]

-- A dial that names no port reaches the only one of its peer's listeners that matches it, and none
-- if none or several do, in whatever order the range over the map comes to the listeners.
pub find_listener_lem :
    (net : NetIp) (t : Target) (range : List ℕ) (n : Network)
    → t.explicit ≡ false
    → Shuffled (sockets_of t.peer n.listeners) range
    → find_listener net t range n
      ≡ only (
          matching
            (matches_at (matches net t.network t.peer t.ip) n.sockets)
            (sockets_of t.peer n.listeners))
unfolding find_listener choose_listener
find_listener_lem net t range n e r =
    let test = matches_at (matches net t.network t.peer t.ip) n.sockets in
    ap (λ b. choose_listener test b (socket_at t.peer t.port n.listeners) range) e
    ∙ sym (sole-Shuffled test none r)
    ∙ sole-none test (sockets_of t.peer n.listeners)
