-- ===== src/Tests/Conns.antt =====
-- The properties of connections at concrete inputs.
use netchaos.Base.{◌≡◌, refl, inl, inr, true, some, [], ◌∷◌, arith, flatten}
use netchaos.Rand.{dialer, acceptor}
use netchaos.Rand.Bounded.{IsWords}
use netchaos.Faults.{is_partitioned}
use netchaos.Peers.{has_pair}
use netchaos.Deadline.{new_deadline, expired}
use netchaos.Pipe.State.{Pipe, pass_through}
use netchaos.Pipe.Ops.{try_read, at_end, try_write, admit, run_deliver, close, abort}
use netchaos.Pipe.Reading.{IsHeld}
use netchaos.Pipe.Invariant.{Inv}
use netchaos.Conn.{
  err_closed, err_broken_pipe, Link, new_conn_pair, new_conn, peer, end, write_pipe, read_pipe,
  set_end, set_write_pipe, set_read_pipe, ended, read_eof, classify_read, failed_or_eof, read_check,
  read_pipe_round, read, write_done, write_failed, classify_write, failed_or_broken, write_check,
  write_pipe_round, write, mark_closed, close_conn, reset_link, close_actions, reset_actions,
  run_actions,
}
use netchaos.Conn.Steps.{LinkInv, LinkReach, here, new_conn_pair-Inv}
use netchaos.Conn.Calls.{Open, ReadOutcome, read_lem, read_eof_lem}
use netchaos.Conn.Writes.{WriteOutcome, write_lem, write_broken_lem}
use netchaos.Conn.Closing.{
  Aborted, Fails, final_error, close_conn_lem, reset_link_lem, close_conn-LinkReach,
  closing-LinkReach,
}
use netchaos.Conn.Partway.{Covered, resetting, run_actions-Partway}
use netchaos.Tests.{top, shared, start, ready, loaded}

-- A new connection that delivers at once.
abbrev pub plain : Pipe
plain = record start { deliver = pass_through }

abbrev fresh : Link
fresh = record { client = new_conn; server = new_conn; up = plain; down = plain }

fresh-Inv : LinkInv (new_conn_pair plain plain)
fresh-Inv = new_conn_pair-Inv plain plain refl refl refl refl

plain-Inv : Inv plain
plain-Inv = record { accounted = refl; ordered = tt; armed = tt; discarded = λ e. cc }

top-IsWords : IsWords top
top-IsWords i = omega arith

-- The acceptor closes.
abbrev shut : Link
shut = close_conn acceptor (new_conn_pair plain plain)

shut-LinkReach : LinkReach (new_conn_pair plain plain) shut
shut-LinkReach = close_conn-LinkReach acceptor (new_conn_pair plain plain)

at_eof : (read 0 shared 4 new_conn (end dialer shut) (read_pipe dialer shut)).0 ≡ read_eof
unfolding read read_check read_pipe_round try_read at_end classify_read failed_or_eof ended
    close_conn run_actions close_actions new_conn_pair end peer write_pipe read_pipe set_end
    set_write_pipe set_read_pipe close abort expired new_deadline is_partitioned has_pair
at_eof = refl

read_eof_lem_example :
    ((end (peer dialer) shut).closed ≡ true)
    × Open (end dialer shut)
    × ((read_pipe dialer shut).pending ≡ [])
    × (flatten (read_pipe dialer shut).readable ≡ [])
    × (¬ IsHeld shared (read_pipe dialer shut))
read_eof_lem_example =
    read_eof_lem dialer plain plain shut shut fresh-Inv shut-LinkReach here 0 shared 4 new_conn
      at_eof

broken :
    write 1 0 0 shared (7 ∷ []) new_conn (end dialer shut) (write_pipe dialer shut)
    ≡ some (write_failed err_broken_pipe, write_pipe dialer shut)
unfolding write write_check write_pipe_round try_write classify_write failed_or_broken ended
    close_conn run_actions close_actions new_conn_pair end peer write_pipe read_pipe set_end
    set_write_pipe set_read_pipe close abort expired new_deadline
broken = refl

write_broken_lem_example :
    ((end (peer dialer) shut).closed ≡ true)
    × Open (end dialer shut)
    × (write_pipe dialer shut ≡ write_pipe dialer shut)
write_broken_lem_example =
    write_broken_lem dialer plain plain shut shut fresh-Inv shut-LinkReach here 1 0 0 shared
      (7 ∷ []) new_conn (write_pipe dialer shut) broken

read_lem_example : ReadOutcome 0 shared 1 new_conn ready (read 0 shared 1 new_conn new_conn ready)
read_lem_example = read_lem 0 shared 1 new_conn ready

abbrev filled : Pipe
filled = record plain { readable = (7 ∷ []) ∷ []; buf_bytes = 1; notify = 1 }

sent : write 1 0 0 shared (7 ∷ []) new_conn new_conn plain ≡ some (write_done 1, filled)
unfolding write write_check write_pipe_round try_write admit run_deliver classify_write expired
    new_conn new_deadline
sent = refl

write_lem_example : WriteOutcome 0 0 shared (7 ∷ []) new_conn plain (write_done 1, filled)
write_lem_example =
    write_lem 1 0 0 shared (7 ∷ []) new_conn plain (write_done 1, filled) top-IsWords (inl refl)
      sent

-- The dialer has written, and nothing has been read.
abbrev busy : Link
busy = record { client = new_conn; server = new_conn; up = filled; down = loaded }

filled-Inv : Inv filled
filled-Inv = record { accounted = refl; ordered = tt; armed = tt; discarded = λ e. cc }

loaded-Inv : Inv loaded
loaded-Inv = record {
  accounted = refl;
  ordered = (omega arith, tt);
  armed = tt;
  discarded = λ e. cc;
}

close_conn_lem_example :
    ((end dialer (close_conn dialer busy)).closed ≡ true)
    × (end (peer dialer) (close_conn dialer busy) ≡ end (peer dialer) busy)
    × ((write_pipe dialer (close_conn dialer busy)).closed ≡ true)
    × ((write_pipe dialer (close_conn dialer busy)).readable ≡ (write_pipe dialer busy).readable)
    × ((write_pipe dialer (close_conn dialer busy)).pending ≡ (write_pipe dialer busy).pending)
    × ((write_pipe dialer (close_conn dialer busy)).timer ≡ (write_pipe dialer busy).timer)
    × Aborted (read_pipe dialer (close_conn dialer busy))
    × (close_conn dialer (close_conn dialer busy) ≡ close_conn dialer busy)
unfolding end peer write_pipe read_pipe new_conn
close_conn_lem_example = close_conn_lem dialer busy refl loaded-Inv

reset_link_lem_example :
    Aborted (reset_link busy).up
    × Aborted (reset_link busy).down
    × Fails (end dialer (reset_link busy)) (final_error (end dialer busy))
    × Fails (end dialer (close_conn dialer (reset_link busy))) err_closed
    × Fails (end dialer (reset_link (close_conn dialer busy))) err_closed
reset_link_lem_example = reset_link_lem dialer busy filled-Inv loaded-Inv

-- The acceptor has closed; a Reset of the dialer has signaled it and aborted its pipes.
abbrev half_closed : Link
half_closed = mark_closed acceptor busy

half_closed-Covered : Covered (dialer ∷ []) half_closed
unfolding mark_closed set_end end peer
half_closed-Covered dialer i = inr refl
half_closed-Covered acceptor (inl e) = absurd (let both : acceptor ≡ dialer = e in cc)
half_closed-Covered acceptor (inr e) = absurd e

closing-LinkReach_example :
    LinkReach half_closed (run_actions (reset_actions (dialer ∷ [])) half_closed)
    × LinkReach half_closed (close_conn acceptor half_closed)
    × LinkReach half_closed (reset_link half_closed)
closing-LinkReach_example =
    closing-LinkReach (reset_actions (dialer ∷ [])) acceptor half_closed _
      (resetting (dialer ∷ []) half_closed-Covered)
      (run_actions-Partway (reset_actions (dialer ∷ [])) half_closed)
