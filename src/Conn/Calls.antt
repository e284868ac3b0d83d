-- ===== src/Conn/Calls.antt =====
-- conn.go: what Read returns, on every branch and under every interleaving.
use netchaos.Base.{
  ℕ, sym, subst, ◌≡◌, refl, true, false, [], Option, none, some, inl, inr, arith, if_cases, flatten,
}
use netchaos.Rand.{Side}
use netchaos.Faults.{Shared}
use netchaos.Deadline.{expired}
use netchaos.Pipe.State.{Pipe}
use netchaos.Pipe.Ops.{ReadResult, got, eof, read_wait, try_read}
use netchaos.Pipe.Reading.{ReadSpec, IsHeld, try_read_lem}
use netchaos.Conn.{
  Conn, ConnError, err_closed, err_conn_reset, err_deadline, err_broken_pipe, Link, new_conn_pair,
  peer, end, write_pipe, read_pipe, ended, ReadAnswer, read_done, read_eof, read_failed,
  read_blocked, classify_read, failed_or_eof, read_check, read_pipe_round, read,
}
use netchaos.Conn.Steps.{
  LinkReach, LinkInv, PipeInv, Flags, LinkReach-Flags, LinkReach-Inv, pipe_of, peer-peer,
}

abbrev pub Open : Conn → Type 0
Open c = (c.closed ≡ false) × (c.reset ≡ false)

-- What one round of Read comes to when nothing comes in between.
abbrev pub ReadOutcome : ℕ → Shared → ℕ → Conn → Pipe → ReadAnswer × Pipe → Type 0
ReadOutcome now n room c p (read_failed err_closed, q) = (c.closed ≡ true) × (q ≡ p)
ReadOutcome now n room c p (read_failed err_conn_reset, q) =
    (c.closed ≡ false) × (c.reset ≡ true) × (q ≡ p)
ReadOutcome now n room c p (read_failed err_deadline, q) =
    Open c × (expired now c.rd ≡ true) × (q ≡ p)
ReadOutcome now n room c p (read_failed err_broken_pipe, q) = ⊥
ReadOutcome now n room c p (read_done bytes, q) =
    Open c × (expired now c.rd ≡ false) × ReadSpec n room p (got bytes, q)
ReadOutcome now n room c p (read_eof, q) =
    Open c × (expired now c.rd ≡ false) × ReadSpec n room p (eof, q)
ReadOutcome now n room c p (read_blocked w, q) =
    Open c × (expired now c.rd ≡ false) × ReadSpec n room p (read_wait w, q)

pub ended-Open : (c : Conn) → Open c → ended c ≡ none
unfolding ended
ended-Open c o = ground arith

classified_read :
    (now : ℕ) (n : Shared) (room : ℕ) (c : Conn) (p : Pipe) (r : ReadResult) (q : Pipe)
    → Open c
    → expired now c.rd ≡ false
    → ReadSpec n room p (r, q)
    → ReadOutcome now n room c p (classify_read c r, q)
unfolding classify_read ended failed_or_eof
classified_read now n room c p (got bytes) q o e h = (o, e, h)
classified_read now n room c p eof q o e h =
    subst (λ (x : Option ConnError). ReadOutcome now n room c p (failed_or_eof x, q))
      (sym (ended-Open c o)) (o, e, h)
classified_read now n room c p (read_wait w) q o e h = (o, e, h)

-- One round of Read, on every branch: this end's Close goes before its reset, that before its
-- deadline, and that before the pipe, which none of the three touches; past them the answer is
-- tryRead's.
pub read_lem :
    (now : ℕ) (n : Shared) (room : ℕ) (c : Conn) (p : Pipe)
    → ReadOutcome now n room c p (read now n room c c p)
unfolding read read_check
read_lem now n room c p =
    if_cases P c.closed _ _ (λ e. (e, refl))
      (λ e.
        if_cases P c.reset _ _ (λ f. (e, f, refl))
          (λ f.
            if_cases P (expired now c.rd) _ _ (λ g. ((e, f), g, refl))
              (λ g. classified_read now n room c p _ _ (e, f) g (try_read_lem n room p))))
  where
    P : Option ConnError → Type 0
    P o = ReadOutcome now n room c p (read_pipe_round o n room c p)

eof_classified : (c : Conn) (r : ReadResult) → classify_read c r ≡ read_eof → (r ≡ eof) × Open c
unfolding classify_read ended failed_or_eof
eof_classified c (got bytes) e = cc
eof_classified c eof e = (refl, ground arith)
eof_classified c (read_wait w) e = cc

-- An end that is neither closed nor reset has been neither before.
pub before-Open : (c c' : Conn) → Flags c c' → Open c' → Open c
before-Open c c' f o = ground arith

eof_result :
    (n : Shared) (room : ℕ) (w r : Conn) (p q : Pipe) (a : ReadResult)
    → PipeInv w r p
    → Open r
    → a ≡ eof
    → ReadSpec n room p (a, q)
    → (w.closed ≡ true) × (p.pending ≡ []) × (flatten p.readable ≡ []) × (¬ IsHeld n p)
eof_result n room w r p q (got bytes) v o e h = cc
eof_result n room w r p q eof v o e (inl h) = absurd (ground arith)
eof_result n room w r p q eof v o e (inr h) = (ground arith, h.1, h.2, h.3)
eof_result n room w r p q (read_wait x) v o e h = cc

-- Whatever runs in between, Read says that the stream has ended only when the peer has closed its
-- end and this end is neither closed nor reset, with every byte of the stream read or discarded,
-- none held back, and no partition in the way: an abort is never taken for a graceful close. The
-- pipe answers in the state l, and the classification is in the later state l'.
pub read_eof_lem :
    (s : Side) (up down : Pipe) (l l' : Link)
    → LinkInv (new_conn_pair up down)
    → LinkReach (new_conn_pair up down) l
    → LinkReach l l'
    → (now : ℕ) (n : Shared) (room : ℕ) (c : Conn)
    → (read now n room c (end s l') (read_pipe s l)).0 ≡ read_eof
    → ((end (peer s) l).closed ≡ true)
      × Open (end s l')
      × ((read_pipe s l).pending ≡ [])
      × (flatten (read_pipe s l).readable ≡ [])
      × (¬ IsHeld n (read_pipe s l))
unfolding read read_pipe
read_eof_lem s up down l l' v reach later now n room c e = from (read_check now c) e
  where
    p : Pipe
    p = write_pipe (peer s) l

    from :
        (o : Option ConnError)
        → (read_pipe_round o n room (end s l') p).0 ≡ read_eof
        → ((end (peer s) l).closed ≡ true)
          × Open (end s l')
          × (p.pending ≡ [])
          × (flatten p.readable ≡ [])
          × (¬ IsHeld n p)
    from (some x) h = cc
    from none h =
        let (is_eof, o) = eof_classified (end s l') (try_read n room p).0 h in
        let before = before-Open (end s l) (end s l') (LinkReach-Flags later s) o in
        let inv = pipe_of (peer s) l (LinkReach-Inv v reach) in
        let inv' : PipeInv (end (peer s) l) (end s l) p =
          subst (λ (x : Side). PipeInv (end (peer s) l) (end x l) p) (peer-peer s) inv in
        let (gone, none_left, drained, free) =
          eof_result n room (end (peer s) l) (end s l) p (try_read n room p).1 (try_read n room p).0
            inv' before is_eof (try_read_lem n room p) in
        (gone, o, none_left, drained, free)
