-- ===== src/Listener.antt =====
-- listener.go: the bounded queue of connections that nobody has accepted yet.
--
-- A connection is known by its number. The queue is the channel `incoming`, of capacity `bound`;
-- the connections that an operation closes are part of its result. Each operation is one step
-- under the mutex, but for the receives of Accept and of Close, which are steps of their own.
pub mod Queue
use netchaos.Base.{
  ℕ, suc, ◌+◌, ◌-◌, Bool, true, false, ◌&&◌, not, Option, none, some, List, [], ◌∷◌, ◌++◌, length,
  ltb, leb, ◌==◌, if◌then◌else◌,
}

pub record Listener : Type 0 where
  pub incoming : List ℕ
  pub bound : ℕ
  pub closed : Bool
  pub reserved : ℕ

unfoldable pub new_listener : ℕ → Listener
new_listener bound = record { incoming = []; bound = bound; closed = false; reserved = 0 }

-- The nil error, ErrConnectionRefused and ErrBacklogFull.
pub data ReserveResult : Type 0 where
  slot_reserved connection_refused backlog_full : ReserveResult

unfoldable pub reserve : Listener → ReserveResult × Listener
reserve l =
    if l.closed
    then (connection_refused, l)
    else if leb l.bound (length l.incoming + l.reserved)
    then (backlog_full, l)
    else (slot_reserved, record l { reserved = suc l.reserved })

-- What a fill did with the connection; a send on a full channel blocks.
pub data FillResult : Type 0 where
  queued : FillResult
  conn_closed : FillResult
  send_blocked : FillResult

-- `reserved` is positive here: a fill comes after its reserve.
unfoldable pub fill : ℕ → Listener → FillResult × Listener
fill c l =
    let m = record l { reserved = l.reserved - 1 } in
    if m.closed
    then (conn_closed, m)
    else if ltb (length m.incoming) m.bound
    then (queued, record m { incoming = m.incoming ++ c ∷ [] })
    else (send_blocked, m)

unfoldable pub fill_after : ℕ → ReserveResult × Listener → ReserveResult × Listener
unfolding fill
fill_after c (slot_reserved, l) = (slot_reserved, (fill c l).1)
fill_after c (connection_refused, l) = (connection_refused, l)
fill_after c (backlog_full, l) = (backlog_full, l)

unfoldable pub enqueue : ℕ → Listener → ReserveResult × Listener
unfolding fill_after
enqueue c l = fill_after c (reserve l)

pub data AcceptResult : Type 0 where
  accepted : ℕ → AcceptResult
  err_closed : AcceptResult
  accept_blocked : AcceptResult

-- When a connection is waiting and the listener is closed, the select takes either: `first` is
-- whether it takes the connection.
unfoldable pub accept_from : Bool → Listener → List ℕ → AcceptResult × Listener
accept_from first l [] = if l.closed then (err_closed, l) else (accept_blocked, l)
accept_from first l (c ∷ cs) =
    if l.closed && not first then (err_closed, l) else (accepted c, record l { incoming = cs })

unfoldable pub accept : Bool → Listener → AcceptResult × Listener
unfolding accept_from
accept first l = accept_from first l l.incoming

-- The part of Close under the mutex, and one receive of its loop: the connection to close.
unfoldable pub mark_closed : Listener → Listener
mark_closed l = record l { closed = true }

unfoldable pub drain_from : Listener → List ℕ → Option ℕ × Listener
drain_from l [] = (none, l)
drain_from l (c ∷ cs) = (some c, record l { incoming = cs })

unfoldable pub drain_one : Listener → Option ℕ × Listener
unfolding drain_from
drain_one l = drain_from l l.incoming

-- The loop of Close: every connection that is left.
unfoldable pub drain_all : Listener → List ℕ × Listener
drain_all l = (l.incoming, record l { incoming = [] })

unfoldable pub close_listener : Listener → List ℕ × Listener
unfolding mark_closed drain_all
close_listener l = if l.closed then ([], l) else drain_all (mark_closed l)
