-- ===== src/Trace/Order.antt =====
-- trace.go: the order of the events that Trace returns.
use netchaos.Base.{
  ℕ, ◌+◌, ◌*◌, ◌≤◌, ◌≡◌, ◌≢◌, refl, ap, ◌∙◌, Bool, List, [], ◌∷◌, leb, if◌then◌else◌, arith,
}
use netchaos.Rand.{Side, dialer, acceptor}
use netchaos.Trace.{TraceHandle, side_number, before, insert, sort, all_events, trace}

-- The place of a handle in the order.
abbrev pub rank : TraceHandle → ℕ
rank h = 2 * h.ordinal + side_number h.side

side_number_bound : (s : Side) → side_number s ≤ 1
unfolding side_number
side_number_bound dialer = omega arith
side_number_bound acceptor = omega arith

pub before-rank : (a b : TraceHandle) → before a b ≡ leb (rank a) (rank b)
unfolding before
before-rank a b = ground (arith, side_number_bound a.side, side_number_bound b.side)

-- One list of handles with two neighbours swapped that are not of one direction, or so on.
pub data Reordered : List TraceHandle → List TraceHandle → Type 0 where
  same : (hs : List TraceHandle) → Reordered hs hs
  swapped :
      (a b : TraceHandle) (hs : List TraceHandle)
      → rank a ≢ rank b
      → Reordered (a ∷ b ∷ hs) (b ∷ a ∷ hs)
  behind :
      (h : TraceHandle) {hs gs : List TraceHandle} → Reordered hs gs → Reordered (h ∷ hs) (h ∷ gs)
  then_reordered :
      {hs gs fs : List TraceHandle} → Reordered hs gs → Reordered gs fs → Reordered hs fs

insert-insert :
    (a b : TraceHandle) (hs : List TraceHandle)
    → rank a ≢ rank b
    → insert a (insert b hs) ≡ insert b (insert a hs)
unfolding insert
insert-insert a b [] differ = ground (arith, before-rank a b, before-rank b a)
insert-insert a b (x ∷ xs) differ = ground (
  arith,
  before-rank a b,
  before-rank b a,
  before-rank a x,
  before-rank b x,
  insert-insert a b xs differ,
)

sort-Reordered : {hs gs : List TraceHandle} → Reordered hs gs → sort hs ≡ sort gs
unfolding sort
sort-Reordered (same hs) = refl
sort-Reordered (swapped a b hs differ) = insert-insert a b (sort hs) differ
sort-Reordered (behind h r) = ap (insert h) (sort-Reordered r)
sort-Reordered (then_reordered r q) = sort-Reordered r ∙ sort-Reordered q

-- Trace does not depend on the order in which the handles of different directions were registered,
-- so neither on which of two racing dials registered first.
pub trace-Reordered :
    (enabled : Bool) {hs gs : List TraceHandle}
    → Reordered hs gs
    → trace enabled hs ≡ trace enabled gs
unfolding trace
trace-Reordered enabled r = ap (λ l. if enabled then all_events l else []) (sort-Reordered r)
