-- ===== src/Trace.antt =====
-- trace.go: the registry of the recorders of a Network, and Trace.
--
-- slices.SortStableFunc is a stable sort; it is written here as an insertion sort. A Side outside
-- the package is an int.
pub mod Order
pub mod Content
use netchaos.Base.{
  ℕ, ◌+◌, ◌*◌, Bool, true, false, ◌&&◌, ◌||◌, List, [], ◌∷◌, ◌++◌, ltb, leb, ◌==◌, if◌then◌else◌,
  map,
}
use netchaos.Base.Int.{ℤ, pos, negsuc}
use netchaos.Peers.{Str}
use netchaos.Rand.{Side, dialer, acceptor}
use netchaos.Faults

-- The exported FaultEvent.
pub record TraceEvent : Type 0 where
  pub ordinal : ℕ
  pub side : ℕ
  pub seq : ℕ
  pub partitioned : Bool
  pub dropped : Bool
  pub duplicated : Bool
  pub corrupted : Bool
  pub delay : ℕ
  pub serialization : ℕ
  pub effective : ℕ
  pub size : ℕ
  pub corrupted_byte : ℕ
  pub corrupted_bit : ℕ

-- SideDialer and SideAcceptor, which the package keeps equal to sideDialer and sideAcceptor.
unfoldable pub side_number : Side → ℕ
side_number dialer = 0
side_number acceptor = 1

-- "dialer", "acceptor" and "unknown"
unfoldable pub side_string : ℤ → Str
side_string (pos n) =
    if n == 0
    then b'd' ∷ b'i' ∷ b'a' ∷ b'l' ∷ b'e' ∷ b'r' ∷ []
    else if n == 1
    then b'a' ∷ b'c' ∷ b'c' ∷ b'e' ∷ b'p' ∷ b't' ∷ b'o' ∷ b'r' ∷ []
    else b'u' ∷ b'n' ∷ b'k' ∷ b'n' ∷ b'o' ∷ b'w' ∷ b'n' ∷ []
side_string (negsuc n) = b'u' ∷ b'n' ∷ b'k' ∷ b'n' ∷ b'o' ∷ b'w' ∷ b'n' ∷ []

-- A handle, with what its recorder holds.
pub record TraceHandle : Type 0 where
  pub ordinal : ℕ
  pub side : Side
  pub events : List Faults.FaultEvent

unfoldable pub register_trace :
    ℕ → Side → List Faults.FaultEvent → List TraceHandle → List TraceHandle
register_trace ordinal side events handles =
    handles ++ record { ordinal = ordinal; side = side; events = events } ∷ []

-- Whether the comparison of Trace puts `a` no later than `b`: cmp.Or of the ordinals' and the
-- sides'.
unfoldable pub before : TraceHandle → TraceHandle → Bool
before a b =
    ltb a.ordinal b.ordinal
    || ((a.ordinal == b.ordinal) && leb (side_number a.side) (side_number b.side))

unfoldable pub insert : TraceHandle → List TraceHandle → List TraceHandle
insert h [] = h ∷ []
insert h (x ∷ xs) = let rest = insert h xs in if before h x then h ∷ x ∷ xs else x ∷ rest

unfoldable pub sort : List TraceHandle → List TraceHandle
unfolding insert
sort [] = []
sort (h ∷ hs) = insert h (sort hs)

unfoldable pub exported : TraceHandle → Faults.FaultEvent → TraceEvent
unfolding side_number
exported h e = record {
  ordinal = h.ordinal;
  side = side_number h.side;
  seq = e.seq;
  partitioned = e.partitioned;
  dropped = e.dropped;
  duplicated = e.duplicated;
  corrupted = e.corrupted;
  delay = e.drawn;
  serialization = e.serialized;
  effective = e.effective;
  size = e.size;
  corrupted_byte = e.corrupt_byte;
  corrupted_bit = e.corrupt_bit;
}

-- The two loops of Trace.
unfoldable pub all_events : List TraceHandle → List TraceEvent
unfolding exported
all_events [] = []
all_events (h ∷ hs) = map (exported h) h.events ++ all_events hs

unfoldable pub trace : Bool → List TraceHandle → List TraceEvent
unfolding all_events sort
trace enabled handles = if enabled then all_events (sort handles) else []
