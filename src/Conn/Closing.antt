-- ===== src/Conn/Closing.antt =====
-- Close and Reset of a connection.
use netchaos.Base.{
  ℕ, subst, ◌≡◌, ◌∙◌, ap, refl, sym, true, false, List, [], ◌∷◌, some, inl, inr, arith,
  if◌then◌else◌, if_cases,
}
use netchaos.Rand.{Side, dialer, acceptor}
use netchaos.Pipe.State.{Pipe}
use netchaos.Pipe.Ops.{close, abort}
use netchaos.Pipe.Invariant.{Inv, abort-Inv}
use netchaos.Conn.{
  Conn, ConnError, err_closed, err_conn_reset, Link, peer, end, write_pipe, read_pipe, set_end,
  set_write_pipe, set_read_pipe, close_conn, signal_reset, abort_reset, reset_link, close_actions,
  reset_actions, run_actions, read_check, write_check,
}
use netchaos.Conn.Steps.{LinkReach, here}
use netchaos.Conn.Partway.{
  Partway, Covered, Ending, closing, resetting, Partway-LinkReach, run_actions-Partway,
}

-- A pipe whose reading end is gone holds nothing, and lets no write in.
abbrev pub Aborted : Pipe → Type 0
Aborted p = (p.read_closed ≡ true) × (p.closed ≡ true) × (p.readable ≡ []) × (p.pending ≡ [])

abort-Aborted : (p : Pipe) → Inv p → Aborted (abort p)
unfolding abort
abort-Aborted p v =
    if_cases Aborted p.read_closed _ _ (λ e. let d = v.discarded e in (e, d.0, d.1, d.2))
      (λ _. (refl, refl, refl, refl))

close_kept :
    (p : Pipe)
    → ((close p).closed ≡ true)
      × ((close p).readable ≡ p.readable)
      × ((close p).pending ≡ p.pending)
      × ((close p).read_closed ≡ p.read_closed)
      × ((close p).timer ≡ p.timer)
unfolding close
close_kept p =
    if_cases
      (λ (q : Pipe).
        (q.closed ≡ true)
        × (q.readable ≡ p.readable)
        × (q.pending ≡ p.pending)
        × (q.read_closed ≡ p.read_closed)
        × (q.timer ≡ p.timer))
      p.closed _ _ (λ e. (e, refl, refl, refl, refl)) (λ _. (refl, refl, refl, refl, refl))

-- Close of an open end closes it, and only it. What it wrote stays in its pipe, readable or
-- scheduled, for the peer to read, and what it has not read is discarded. Closing again changes
-- nothing.
pub close_conn_lem :
    (s : Side) (l : Link)
    → (end s l).closed ≡ false
    → Inv (read_pipe s l)
    → ((end s (close_conn s l)).closed ≡ true)
      × (end (peer s) (close_conn s l) ≡ end (peer s) l)
      × ((write_pipe s (close_conn s l)).closed ≡ true)
      × ((write_pipe s (close_conn s l)).readable ≡ (write_pipe s l).readable)
      × ((write_pipe s (close_conn s l)).pending ≡ (write_pipe s l).pending)
      × ((write_pipe s (close_conn s l)).timer ≡ (write_pipe s l).timer)
      × Aborted (read_pipe s (close_conn s l))
      × (close_conn s (close_conn s l) ≡ close_conn s l)
unfolding close_conn run_actions close_actions end peer write_pipe read_pipe set_end set_write_pipe
    set_read_pipe
close_conn_lem dialer l e v =
    let k = close_kept l.up in rw e (refl, refl, k.0, k.1, k.2, k.4, abort-Aborted l.down v, refl)
close_conn_lem acceptor l e v =
    let k = close_kept l.down in rw e (refl, refl, k.0, k.1, k.2, k.4, abort-Aborted l.up v, refl)

-- The error that the end gives from now on.
abbrev pub final_error : Conn → ConnError
final_error c = if c.closed then err_closed else err_conn_reset

closed_now : (s : Side) (l : Link) → (end s (close_conn s l)).closed ≡ true
unfolding close_conn run_actions close_actions end set_end set_write_pipe set_read_pipe
closed_now dialer l =
    if_cases (λ (m : Link). m.client.closed ≡ true) l.client.closed _ _ (λ e. e) (λ _. refl)
closed_now acceptor l =
    if_cases (λ (m : Link). m.server.closed ≡ true) l.server.closed _ _ (λ e. e) (λ _. refl)

reset_link-Aborted :
    (l : Link) → Inv l.up → Inv l.down → Aborted (reset_link l).up × Aborted (reset_link l).down
unfolding reset_link run_actions reset_actions signal_reset abort_reset end set_end write_pipe
    read_pipe peer set_write_pipe set_read_pipe
reset_link-Aborted l u d = (
  abort-Aborted (abort l.up) (abort-Inv l.up u),
  abort-Aborted (abort l.down) (abort-Inv l.down d),
)

end-reset_link : (s : Side) (l : Link) → end s (reset_link l) ≡ record (end s l) { reset = true }
unfolding reset_link run_actions reset_actions signal_reset abort_reset end set_end set_write_pipe
    set_read_pipe
end-reset_link dialer l = refl
end-reset_link acceptor l = refl

-- Whatever the deadlines, every Read and Write of the end fails with this error from now on.
abbrev pub Fails : Conn → ConnError → Type 0
Fails c e = (now : ℕ) → (read_check now c ≡ some e) × (write_check now c ≡ some e)

reset-Fails : (c : Conn) → Fails (record c { reset = true }) (final_error c)
unfolding read_check write_check
reset-Fails c now = ground arith

closed-Fails : (c : Conn) → c.closed ≡ true → Fails c err_closed
unfolding read_check write_check
closed-Fails c e now = ground arith

-- After a Reset both pipes are aborted, and every Read and Write of an end fails, whatever the
-- deadlines: with net.ErrClosed if the end is closed, before the Reset or after it, and with
-- ECONNRESET otherwise.
pub reset_link_lem :
    (s : Side) (l : Link)
    → Inv l.up
    → Inv l.down
    → Aborted (reset_link l).up
      × Aborted (reset_link l).down
      × Fails (end s (reset_link l)) (final_error (end s l))
      × Fails (end s (close_conn s (reset_link l))) err_closed
      × Fails (end s (reset_link (close_conn s l))) err_closed
reset_link_lem s l u d = (
  (reset_link-Aborted l u d).0,
  (reset_link-Aborted l u d).1,
  subst (λ (c : Conn). Fails c (final_error (end s l))) (sym (end-reset_link s l))
      (reset-Fails (end s l)),
  closed-Fails _ (closed_now s (reset_link l)),
  closed-Fails _ (ap (λ (c : Conn). c.closed) (end-reset_link s (close_conn s l)) ∙ closed_now s l),
)

peer-Covered : (l : Link) → Covered (dialer ∷ acceptor ∷ []) l
unfolding peer
peer-Covered l dialer i = inl (inr (inl refl))
peer-Covered l acceptor i = inl (inl refl)

pub close_conn-LinkReach : (s : Side) (l : Link) → LinkReach l (close_conn s l)
unfolding close_conn
close_conn-LinkReach s l =
    if_cases (LinkReach l) (end s l).closed _ _ (λ _. here)
      (λ _. Partway-LinkReach (closing s) (run_actions-Partway (close_actions s) l))

reset_link-LinkReach : (l : Link) → LinkReach l (reset_link l)
unfolding reset_link
reset_link-LinkReach l =
    Partway-LinkReach (resetting (dialer ∷ acceptor ∷ []) (peer-Covered l))
      (run_actions-Partway (reset_actions (dialer ∷ acceptor ∷ [])) l)

-- Whatever the other goroutines of a connection do in between, at each point of the actions of Close,
-- and of a Reset of ends whose peers are reset too or are closed, the connection is one that the
-- steps of its goroutines reach: the write pipe is closed, the read pipe aborted and the deadlines
-- stopped only once the end is marked closed, and Reset aborts no pipe until every end that it
-- resets is signaled. `close_conn` and `reset_link` are such actions with nothing in between.
pub closing-LinkReach :
    (fs : List (Link → Link)) (s : Side) (l m : Link)
    → Ending l fs
    → Partway fs l m
    → LinkReach l m × LinkReach l (close_conn s l) × LinkReach l (reset_link l)
closing-LinkReach fs s l m e p =
    (Partway-LinkReach e p, close_conn-LinkReach s l, reset_link-LinkReach l)
