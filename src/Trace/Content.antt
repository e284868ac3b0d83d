-- ===== src/Trace/Content.antt =====
-- trace.go: which events Trace returns, and in what order.
use netchaos.Base.{
  ℕ, ◌+◌, ◌*◌, ◌≤◌, ◌≡◌, ◌≢◌, refl, sym, ap, ◌∙◌, inl, inr, true, false, List, [], ◌∷◌, ◌++◌, ◌==◌,
  ◌&&◌, if◌then◌else◌, map, arith, if_cases, Bool-cases, All, All-append,
}
use netchaos.Faults
use netchaos.Rand.{Side, dialer, acceptor, side_byte}
use netchaos.Trace.{
  TraceEvent, TraceHandle, side_number, before, insert, sort, exported, all_events, trace,
}
use netchaos.Trace.Order.{rank, before-rank}

abbrev pub event_rank : TraceEvent → ℕ
event_rank e = 2 * e.ordinal + e.side

-- The events of one direction, in their order.
unfoldable pub of_rank : ℕ → List TraceEvent → List TraceEvent
of_rank r [] = []
of_rank r (e ∷ es) = let rest = of_rank r es in if event_rank e == r then e ∷ rest else rest

-- Each event comes no later than those after it, by ordinal and then by side.
abbrev pub Ascending : List TraceEvent → Type 0
Ascending [] = Unit
Ascending (e ∷ es) = All (λ (f : TraceEvent). event_rank e ≤ event_rank f) es × Ascending es

of_rank-append :
    (r : ℕ) (es fs : List TraceEvent) → of_rank r (es ++ fs) ≡ of_rank r es ++ of_rank r fs
unfolding of_rank
of_rank-append r [] fs = refl
of_rank-append r (e ∷ es) fs = ground (arith, of_rank-append r es fs)

-- The events of another direction.
other_rank :
    (r : ℕ) (h : TraceHandle) (es : List Faults.FaultEvent)
    → rank h ≢ r
    → of_rank r (map (exported h) es) ≡ []
unfolding of_rank exported
other_rank r h [] differ = refl
other_rank r h (e ∷ es) differ = ground (arith, other_rank r h es differ)

-- Two directions that differ may come in either order.
swap_ranks :
    (r : ℕ) (h x : TraceHandle) (fs : List TraceEvent)
    → rank h ≢ rank x
    → of_rank r (map (exported x) x.events) ++ (of_rank r (map (exported h) h.events) ++ fs)
      ≡ of_rank r (map (exported h) h.events) ++ (of_rank r (map (exported x) x.events) ++ fs)
swap_ranks r h x fs differ = elim (Bool-cases (rank h == r)) [
  | inl e ↦ let gone = other_rank r x x.events (ground arith) in simp gone
  | inr e ↦ let gone = other_rank r h h.events (ground arith) in simp gone
]

of_rank-insert :
    (r : ℕ) (h : TraceHandle) (hs : List TraceHandle)
    → of_rank r (all_events (insert h hs))
      ≡ of_rank r (map (exported h) h.events) ++ of_rank r (all_events hs)
unfolding insert all_events
of_rank-insert r h [] = of_rank-append r (map (exported h) h.events) []
of_rank-insert r h (x ∷ xs) =
    if_cases
      (λ (l : List TraceHandle).
        of_rank r (all_events l)
        ≡ of_rank r (map (exported h) h.events) ++ of_rank r (all_events (x ∷ xs)))
      (before h x) (h ∷ x ∷ xs) (x ∷ insert h xs)
      (λ _. of_rank-append r (map (exported h) h.events) (all_events (x ∷ xs)))
      (λ later.
        of_rank-append r (map (exported x) x.events) (all_events (insert h xs))
        ∙ ap (λ es. of_rank r (map (exported x) x.events) ++ es) (of_rank-insert r h xs)
        ∙ swap_ranks r h x (of_rank r (all_events xs)) (ground (arith, before-rank h x))
        ∙ ap (λ es. of_rank r (map (exported h) h.events) ++ es)
            (sym (of_rank-append r (map (exported x) x.events) (all_events xs))))

of_rank-sort :
    (r : ℕ) (hs : List TraceHandle) → of_rank r (all_events (sort hs)) ≡ of_rank r (all_events hs)
unfolding sort all_events
of_rank-sort r [] = refl
of_rank-sort r (h ∷ hs) =
    of_rank-insert r h (sort hs)
    ∙ ap (λ es. of_rank r (map (exported h) h.events) ++ es) (of_rank-sort r hs)
    ∙ sym (of_rank-append r (map (exported h) h.events) (all_events hs))

abbrev SortedHandles : List TraceHandle → Type 0
SortedHandles [] = Unit
SortedHandles (h ∷ hs) = All (λ (x : TraceHandle). rank h ≤ rank x) hs × SortedHandles hs

All-weaken :
    (r q : ℕ) (hs : List TraceHandle)
    → r ≤ q
    → All (λ (x : TraceHandle). q ≤ rank x) hs
    → All (λ (x : TraceHandle). r ≤ rank x) hs
All-weaken r q [] h a = tt
All-weaken r q (x ∷ xs) h a = (omega (arith, h, a.0), All-weaken r q xs h a.1)

All-insert :
    (r : ℕ) (h : TraceHandle) (hs : List TraceHandle)
    → r ≤ rank h
    → All (λ (x : TraceHandle). r ≤ rank x) hs
    → All (λ (x : TraceHandle). r ≤ rank x) (insert h hs)
unfolding insert
All-insert r h [] le a = (le, tt)
All-insert r h (x ∷ xs) le a =
    if_cases (All (λ (y : TraceHandle). r ≤ rank y)) (before h x) _ _ (λ _. (le, a))
      (λ _. (a.0, All-insert r h xs le a.1))

insert-SortedHandles :
    (h : TraceHandle) (hs : List TraceHandle) → SortedHandles hs → SortedHandles (insert h hs)
unfolding insert
insert-SortedHandles h [] s = (tt, tt)
insert-SortedHandles h (x ∷ xs) s =
    if_cases SortedHandles (before h x) (h ∷ x ∷ xs) (x ∷ insert h xs)
      (λ first.
        let le : rank h ≤ rank x = ground (arith, before-rank h x) in
        ((le, All-weaken (rank h) (rank x) xs le s.0), s))
      (λ later. (
        All-insert (rank x) h xs (ground (arith, before-rank h x)) s.0,
        insert-SortedHandles h xs s.1,
      ))

sort-SortedHandles : (hs : List TraceHandle) → SortedHandles (sort hs)
unfolding sort
sort-SortedHandles [] = tt
sort-SortedHandles (h ∷ hs) = insert-SortedHandles h (sort hs) (sort-SortedHandles hs)

abbrev From : ℕ → List TraceEvent → Type 0
From r es = All (λ (f : TraceEvent). r ≤ event_rank f) es

From-exported :
    (r : ℕ) (h : TraceHandle) (es : List Faults.FaultEvent)
    → r ≤ rank h
    → From r (map (exported h) es)
unfolding exported
From-exported r h [] le = tt
From-exported r h (e ∷ es) le = (le, From-exported r h es le)

From-all_events :
    (r : ℕ) (hs : List TraceHandle)
    → All (λ (x : TraceHandle). r ≤ rank x) hs
    → From r (all_events hs)
unfolding all_events
From-all_events r [] a = tt
From-all_events r (h ∷ hs) a =
    All-append (λ (f : TraceEvent). r ≤ event_rank f) (map (exported h) h.events) (all_events hs)
      (From-exported r h h.events a.0) (From-all_events r hs a.1)

exported-Ascending :
    (h : TraceHandle) (es : List Faults.FaultEvent) (fs : List TraceEvent)
    → From (rank h) fs
    → Ascending fs
    → Ascending (map (exported h) es ++ fs)
unfolding exported
exported-Ascending h [] fs a s = s
exported-Ascending h (e ∷ es) fs a s = (
  All-append (λ (f : TraceEvent). rank h ≤ event_rank f) (map (exported h) es) fs
      (From-exported (rank h) h es (omega arith)) a,
  exported-Ascending h es fs a s,
)

all_events-Ascending : (hs : List TraceHandle) → SortedHandles hs → Ascending (all_events hs)
unfolding all_events
all_events-Ascending [] s = tt
all_events-Ascending (h ∷ hs) s =
    exported-Ascending h h.events (all_events hs) (From-all_events (rank h) hs s.0)
      (all_events-Ascending hs s.1)

-- An exported event, as its recorder held it.
abbrev pub recorded : TraceEvent → Faults.FaultEvent
recorded e = record {
  seq = e.seq;
  partitioned = e.partitioned;
  dropped = e.dropped;
  duplicated = e.duplicated;
  corrupted = e.corrupted;
  drawn = e.delay;
  serialized = e.serialization;
  effective = e.effective;
  size = e.size;
  corrupt_byte = e.corrupted_byte;
  corrupt_bit = e.corrupted_bit;
}

-- The events of one direction, and those that the recorders of the direction hold.
unfoldable pub of_direction : ℕ → Side → List TraceEvent → List TraceEvent
of_direction ordinal side [] = []
of_direction ordinal side (e ∷ es) =
    let rest = of_direction ordinal side es in
    if (e.ordinal == ordinal) && (e.side == side_byte side) then e ∷ rest else rest

unfoldable pub held : ℕ → Side → List TraceHandle → List Faults.FaultEvent
held ordinal side [] = []
held ordinal side (h ∷ hs) =
    let rest = held ordinal side hs in
    if (h.ordinal == ordinal) && (side_byte h.side == side_byte side)
    then h.events ++ rest
    else rest

-- An event that is of the dialer's side or of the acceptor's.
abbrev pub Sided : TraceEvent → Type 0
Sided e = e.side ≤ 1

side_number-side_byte : (s : Side) → side_number s ≡ side_byte s
unfolding side_number
side_number-side_byte dialer = refl
side_number-side_byte acceptor = refl

side_byte_bound : (s : Side) → side_byte s ≤ 1
side_byte_bound dialer = omega arith
side_byte_bound acceptor = omega arith

exported-Sided : (h : TraceHandle) (es : List Faults.FaultEvent) → All Sided (map (exported h) es)
unfolding exported
exported-Sided h [] = tt
exported-Sided h (e ∷ es) =
    (omega (arith, side_number-side_byte h.side, side_byte_bound h.side), exported-Sided h es)

all_events-Sided : (hs : List TraceHandle) → All Sided (all_events hs)
unfolding all_events
all_events-Sided [] = tt
all_events-Sided (h ∷ hs) =
    All-append Sided (map (exported h) h.events) (all_events hs) (exported-Sided h h.events)
      (all_events-Sided hs)

-- A direction is told by its rank.
of_direction-of_rank :
    (ordinal : ℕ) (side : Side) (es : List TraceEvent)
    → All Sided es
    → of_direction ordinal side es ≡ of_rank (2 * ordinal + side_byte side) es
unfolding of_direction of_rank
of_direction-of_rank ordinal side [] a = refl
of_direction-of_rank ordinal side (e ∷ es) a =
    ground (arith, a.0, side_byte_bound side, of_direction-of_rank ordinal side es a.1)

of_direction-append :
    (ordinal : ℕ) (side : Side) (es fs : List TraceEvent)
    → of_direction ordinal side (es ++ fs)
      ≡ of_direction ordinal side es ++ of_direction ordinal side fs
unfolding of_direction
of_direction-append ordinal side [] fs = refl
of_direction-append ordinal side (e ∷ es) fs =
    ground (arith, of_direction-append ordinal side es fs)

of_direction-exported :
    (ordinal : ℕ) (side : Side) (h : TraceHandle) (es : List Faults.FaultEvent)
    (fs : List TraceEvent)
    → map recorded (of_direction ordinal side (map (exported h) es ++ fs)) ≡ (
        if (h.ordinal == ordinal) && (side_byte h.side == side_byte side)
        then es ++ map recorded (of_direction ordinal side fs)
        else map recorded (of_direction ordinal side fs))
unfolding of_direction exported
of_direction-exported ordinal side h [] fs = ground arith
of_direction-exported ordinal side h (e ∷ es) fs =
    ground (arith, side_number-side_byte h.side, of_direction-exported ordinal side h es fs)

of_direction-all_events :
    (ordinal : ℕ) (side : Side) (hs : List TraceHandle)
    → map recorded (of_direction ordinal side (all_events hs)) ≡ held ordinal side hs
unfolding of_direction all_events held
of_direction-all_events ordinal side [] = refl
of_direction-all_events ordinal side (h ∷ hs) =
    of_direction-exported ordinal side h h.events (all_events hs)
    ∙ ap
        (λ (l : List Faults.FaultEvent).
          if (h.ordinal == ordinal) && (side_byte h.side == side_byte side)
          then h.events ++ l
          else l)
        (of_direction-all_events ordinal side hs)

of_direction-sort :
    (ordinal : ℕ) (side : Side) (hs : List TraceHandle)
    → of_direction ordinal side (all_events (sort hs)) ≡ of_direction ordinal side (all_events hs)
of_direction-sort ordinal side hs =
    of_direction-of_rank ordinal side (all_events (sort hs)) (all_events-Sided (sort hs))
    ∙ of_rank-sort (2 * ordinal + side_byte side) hs
    ∙ sym (of_direction-of_rank ordinal side (all_events hs) (all_events-Sided hs))

-- What Trace returns is in ascending order of the ordinal and then of the side. Every event is of a
-- dialer's or of an acceptor's side, and those of one direction are, field by field, the events that
-- the recorders registered for that direction hold, all of them and in their order. With tracing off
-- Trace returns none.
pub trace_lem :
    (hs : List TraceHandle)
    → Ascending (trace true hs)
      × All Sided (trace true hs)
      × ((ordinal : ℕ) (side : Side)
          → map recorded (of_direction ordinal side (trace true hs)) ≡ held ordinal side hs)
      × (trace false hs ≡ [])
unfolding trace
trace_lem hs = (
  all_events-Ascending (sort hs) (sort-SortedHandles hs),
  all_events-Sided (sort hs),
  (λ ordinal side.
      ap (map recorded) (of_direction-sort ordinal side hs)
      ∙ of_direction-all_events ordinal side hs),
  refl,
)
