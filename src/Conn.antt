-- ===== src/Conn.antt =====
-- conn.go: the two ends of a connection over their crossed pipes, and the calls of each end.
--
-- A call of Read or Write goes through its loop; one round of it is a function here, given the
-- state of its end when it looks (`c`), and when it classifies the pipe's answer (`c'`), since other
-- goroutines run in between. Errors stand for the cause inside the *net.OpError.
pub mod Steps
pub mod Calls
pub mod Writes
pub mod Closing
pub mod Partway
use netchaos.Base.{
  ℕ, zero, suc, ◌+◌, ◌-◌, Bool, true, false, ◌&&◌, ◌||◌, Option, none, some, List, [], ◌∷◌, ◌++◌,
  if◌then◌else◌, ◌>>=◌, map,
}
use netchaos.Rand.{Side, dialer, acceptor}
use netchaos.Faults.{Shared}
use netchaos.Deadline.{Deadline, new_deadline, expired, set, stop}
use netchaos.Pipe.State.{Pipe}
use netchaos.Pipe.Ops.{
  Wait, ReadResult, got, eof, read_wait, WriteResult, wrote, closed_pipe, write_wait, try_read,
  try_write, close, abort,
}

-- The channels `closed` and `resetCh` are whether they are closed.
pub record Conn : Type 0 where
  pub closed : Bool
  pub reset : Bool
  pub rd : Deadline
  pub wd : Deadline

-- A connection: its ends, and the pipes from the dialer to the acceptor and back.
pub record Link : Type 0 where
  pub client : Conn
  pub server : Conn
  pub up : Pipe
  pub down : Pipe

pub data ConnError : Type 0 where
  err_closed err_conn_reset err_deadline err_broken_pipe : ConnError

unfoldable pub new_conn : Conn
new_conn = record { closed = false; reset = false; rd = new_deadline; wd = new_deadline }

-- The pair, over its two pipes.
unfoldable pub new_conn_pair : Pipe → Pipe → Link
unfolding new_conn
new_conn_pair up down = record { client = new_conn; server = new_conn; up = up; down = down }

unfoldable pub peer : Side → Side
peer dialer = acceptor
peer acceptor = dialer

unfoldable pub end : Side → Link → Conn
end dialer l = l.client
end acceptor l = l.server

unfoldable pub write_pipe : Side → Link → Pipe
write_pipe dialer l = l.up
write_pipe acceptor l = l.down

unfoldable pub read_pipe : Side → Link → Pipe
unfolding write_pipe peer
read_pipe s l = write_pipe (peer s) l

unfoldable pub set_end : Side → Conn → Link → Link
set_end dialer c l = record l { client = c }
set_end acceptor c l = record l { server = c }

unfoldable pub set_write_pipe : Side → Pipe → Link → Link
set_write_pipe dialer p l = record l { up = p }
set_write_pipe acceptor p l = record l { down = p }

unfoldable pub set_read_pipe : Side → Pipe → Link → Link
unfolding set_write_pipe peer
set_read_pipe s p l = set_write_pipe (peer s) p l

-- The two selects that look at `closed` and then at `resetCh`.
unfoldable pub ended : Conn → Option ConnError
ended c = if c.closed then some err_closed else if c.reset then some err_conn_reset else none

-- What one round of Read comes to.
pub data ReadAnswer : Type 0 where
  read_done : List ℕ → ReadAnswer
  read_eof : ReadAnswer
  read_failed : ConnError → ReadAnswer
  read_blocked : Wait → ReadAnswer

unfoldable pub failed_or_eof : Option ConnError → ReadAnswer
failed_or_eof (some e) = read_failed e
failed_or_eof none = read_eof

-- `err` is io.EOF in the second case only.
unfoldable pub classify_read : Conn → ReadResult → ReadAnswer
unfolding failed_or_eof
classify_read c (got bytes) = read_done bytes
classify_read c eof = failed_or_eof (ended c)
classify_read c (read_wait w) = read_blocked w

-- The checks ahead of the pipe.
unfoldable pub read_check : ℕ → Conn → Option ConnError
unfolding ended
read_check now c =
    if c.closed
    then some err_closed
    else if c.reset
    then some err_conn_reset
    else if expired now c.rd
    then some err_deadline
    else none

unfoldable pub read_pipe_round : Option ConnError → Shared → ℕ → Conn → Pipe → ReadAnswer × Pipe
read_pipe_round (some e) n room c' p = (read_failed e, p)
read_pipe_round none n room c' p = let (r, q) = try_read n room p in (classify_read c' r, q)

unfoldable pub read : ℕ → Shared → ℕ → Conn → Conn → Pipe → ReadAnswer × Pipe
unfolding read_pipe_round
read now n room c c' p = read_pipe_round (read_check now c) n room c' p

pub data WriteAnswer : Type 0 where
  write_done : ℕ → WriteAnswer
  write_failed : ConnError → WriteAnswer
  write_blocked : Wait → WriteAnswer

unfoldable pub failed_or_broken : Option ConnError → WriteAnswer
failed_or_broken (some e) = write_failed e
failed_or_broken none = write_failed err_broken_pipe

-- A writer that would wait looks at its deadline once more.
unfoldable pub classify_write : ℕ → Conn → WriteResult → WriteAnswer
unfolding failed_or_broken
classify_write now c (wrote k) = write_done k
classify_write now c closed_pipe = failed_or_broken (ended c)
classify_write now c (write_wait w) =
    if expired now c.wd then write_failed err_deadline else write_blocked w

unfoldable pub write_check : ℕ → Conn → Option ConnError
write_check now c =
    if c.closed
    then some err_closed
    else if c.reset
    then some err_conn_reset
    else if expired now c.wd
    then some err_deadline
    else none

unfoldable pub write_pipe_round :
    Option ConnError → ℕ → Shared → ℕ → ℕ → List ℕ → Conn → Pipe → Option (WriteAnswer × Pipe)
write_pipe_round (some e) fuel n now later bytes c' p = some (write_failed e, p)
write_pipe_round none fuel n now later bytes c' p =
    try_write fuel n now bytes p >>= λ (r, q). some (classify_write later c' r, q)

-- `now` is the instant of the round's start, `later` that of its classification.
unfoldable pub write :
    ℕ → ℕ → ℕ → Shared → List ℕ → Conn → Conn → Pipe → Option (WriteAnswer × Pipe)
unfolding write_pipe_round
write fuel now later n bytes c c' p =
    write_pipe_round (write_check now c) fuel n now later bytes c' p

-- The actions inside Close, in its order. (deregisterReset is in `Reset`.)
unfoldable pub mark_closed : Side → Link → Link
mark_closed s l = set_end s (record (end s l) { closed = true }) l

unfoldable pub close_write_pipe : Side → Link → Link
close_write_pipe s l = set_write_pipe s (close (write_pipe s l)) l

unfoldable pub abort_read_pipe : Side → Link → Link
abort_read_pipe s l = set_read_pipe s (abort (read_pipe s l)) l

unfoldable pub stop_deadlines : Side → Link → Link
stop_deadlines s l =
    let c : Conn = end s l in set_end s (record c { rd = stop c.rd; wd = stop c.wd }) l

-- Actions that one goroutine takes one after the other. Other goroutines may act in between.
unfoldable pub run_actions : List (Link → Link) → Link → Link
run_actions [] l = l
run_actions (f ∷ fs) l = run_actions fs (f l)

-- The body of closeOnce, but for the deregistration.
unfoldable pub close_actions : Side → List (Link → Link)
close_actions s = mark_closed s ∷ close_write_pipe s ∷ abort_read_pipe s ∷ stop_deadlines s ∷ []

unfoldable pub close_conn : Side → Link → Link
unfolding run_actions close_actions mark_closed close_write_pipe abort_read_pipe stop_deadlines
close_conn s l = if (end s l).closed then l else run_actions (close_actions s) l

unfoldable pub signal_reset : Side → Link → Link
signal_reset s l = set_end s (record (end s l) { reset = true }) l

unfoldable pub abort_reset : Side → Link → Link
abort_reset s l =
    let wrote : Link = set_write_pipe s (abort (write_pipe s l)) l in
    set_read_pipe s (abort (read_pipe s wrote)) wrote

-- SetReadDeadline, SetWriteDeadline and SetDeadline: their error, and the end afterwards.
unfoldable pub set_read_deadline : ℕ → ℕ → Conn → Option ConnError × Conn
set_read_deadline now t c =
    if c.closed then (some err_closed, c) else (none, record c { rd = set now t c.rd })

unfoldable pub set_write_deadline : ℕ → ℕ → Conn → Option ConnError × Conn
set_write_deadline now t c =
    if c.closed then (some err_closed, c) else (none, record c { wd = set now t c.wd })

unfoldable pub set_deadline : ℕ → ℕ → Conn → Option ConnError × Conn
set_deadline now t c =
    if c.closed
    then (some err_closed, c)
    else (none, record c { rd = set now t c.rd; wd = set now t c.wd })

-- What Reset does to the ends that are its targets, of one connection.
unfoldable pub reset_actions : List Side → List (Link → Link)
reset_actions ss = map signal_reset ss ++ map abort_reset ss

-- Reset of one connection.
unfoldable pub reset_link : Link → Link
unfolding run_actions reset_actions
reset_link l = run_actions (reset_actions (dialer ∷ acceptor ∷ [])) l
