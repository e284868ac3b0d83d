-- ===== src/Conn/Writes.antt =====
-- What Write returns, on every branch and under every interleaving.
use mathlib.Core.Option.{some-injective}
use netchaos.Base.{
  ℕ, ap, ◌∙◌, sym, subst, ◌≡◌, ◌≢◌, ◌⊎◌, refl, true, false, List, [], Option, none, some, inl, inr,
  arith, if_cases, ◌||◌, >>=-eq-some, along_some,
}
use netchaos.Rand.{Side}
use netchaos.Faults.{Shared}
use netchaos.Deadline.{expired}
use netchaos.Pipe.State.{Pipe}
use netchaos.Pipe.Ops.{WriteResult, wrote, closed_pipe, write_wait, try_write}
use netchaos.Pipe.Rules.{try_write_rule}
use netchaos.Conn.{
  Conn, ConnError, err_closed, err_conn_reset, err_deadline, err_broken_pipe, Link, new_conn_pair,
  peer, end, write_pipe, ended, WriteAnswer, write_done, write_failed, write_blocked,
  classify_write, failed_or_broken, write_check, write_pipe_round, write,
}
use netchaos.Conn.Steps.{LinkReach, LinkInv, PipeInv, LinkReach-Flags, LinkReach-Inv, pipe_of}
use netchaos.Conn.Calls.{Open, before-Open, ended-Open}
use netchaos.Rand.Bounded.{IsWords}
use netchaos.Pipe.Stream.{delays}
use netchaos.Pipe.Writing.{WriteSpec, try_write_lem}

-- What one round of Write comes to when nothing comes in between.
abbrev pub WriteOutcome : ℕ → ℕ → Shared → List ℕ → Conn → Pipe → WriteAnswer × Pipe → Type 0
WriteOutcome now later n bytes c p (write_failed err_closed, q) = (c.closed ≡ true) × (q ≡ p)
WriteOutcome now later n bytes c p (write_failed err_conn_reset, q) =
    (c.closed ≡ false) × (c.reset ≡ true) × (q ≡ p)
WriteOutcome now later n bytes c p (write_failed err_deadline, q) =
    Open c × ((expired now c.wd ≡ true) ⊎ (expired later c.wd ≡ true)) × (q ≡ p)
WriteOutcome now later n bytes c p (write_failed err_broken_pipe, q) =
    Open c × (expired now c.wd ≡ false) × WriteSpec n bytes p (closed_pipe, q)
WriteOutcome now later n bytes c p (write_done k, q) =
    Open c × (expired now c.wd ≡ false) × WriteSpec n bytes p (wrote k, q)
WriteOutcome now later n bytes c p (write_blocked w, q) =
    Open c
    × (expired now c.wd ≡ false)
    × (expired later c.wd ≡ false)
    × WriteSpec n bytes p (write_wait w, q)

classified_write :
    (now later : ℕ) (n : Shared) (bytes : List ℕ) (c : Conn) (p : Pipe) (r : WriteResult) (q : Pipe)
    → Open c
    → expired now c.wd ≡ false
    → WriteSpec n bytes p (r, q)
    → WriteOutcome now later n bytes c p (classify_write later c r, q)
unfolding classify_write ended failed_or_broken
classified_write now later n bytes c p (wrote k) q o e h = (o, e, h)
classified_write now later n bytes c p closed_pipe q o e h =
    subst (λ (x : Option ConnError). WriteOutcome now later n bytes c p (failed_or_broken x, q))
      (sym (ended-Open c o)) (o, e, h)
classified_write now later n bytes c p (write_wait w) q o e h =
    if_cases (λ (a : WriteAnswer). WriteOutcome now later n bytes c p (a, q)) (expired later c.wd) _
      _ (λ f. (o, inr f, h.4)) (λ f. (o, e, f, h))

-- One round of Write, on every branch: this end's Close goes before its reset, that before its
-- deadline, and that before the pipe, which none of the three touches; past them the answer is
-- tryWrite's, a pipe closed at the other end is a broken pipe, and a write that would wait fails
-- when its deadline has come by then. (A pipe whose evaluator delivers at once holds nothing back.)
pub write_lem :
    (fuel now later : ℕ) (n : Shared) (bytes : List ℕ) (c : Conn) (p : Pipe)
    (r : WriteAnswer × Pipe)
    → IsWords p.corrupt
    → ((p.pending ≡ []) ⊎ (delays n p.deliver ≡ true))
    → write fuel now later n bytes c c p ≡ some r
    → WriteOutcome now later n bytes c p r
unfolding write write_check
write_lem fuel now later n bytes c p r w d =
    if_cases P c.closed _ _ (λ e h. along_some Q h (e, refl))
      (λ e.
        if_cases P c.reset _ _ (λ f h. along_some Q h (e, f, refl))
          (λ f.
            if_cases P (expired now c.wd) _ _ (λ g h. along_some Q h ((e, f), inl g, refl))
              (λ g h.
                let ((a, q), found, rest) = >>=-eq-some (try_write fuel n now bytes p) _ h in
                along_some Q rest (
                  classified_write now later n bytes c p a q (e, f) g
                    (try_write_lem fuel n now bytes p (a, q) w d found)))))
  where
    Q : WriteAnswer × Pipe → Type 0
    Q x = WriteOutcome now later n bytes c p x

    P : Option ConnError → Type 0
    P o =
        write_pipe_round o fuel n now later bytes c p ≡ some r
        → WriteOutcome now later n bytes c p r

broken_classified :
    (now : ℕ) (c : Conn) (r : WriteResult)
    → classify_write now c r ≡ write_failed err_broken_pipe
    → (r ≡ closed_pipe) × Open c
unfolding classify_write ended failed_or_broken
broken_classified now c (wrote k) e = cc
broken_classified now c closed_pipe e = (refl, ground arith)
broken_classified now c (write_wait w) e = ground arith

closed_result :
    (fuel : ℕ) (n : Shared) (now : ℕ) (bytes : List ℕ) (p : Pipe) (r : WriteResult × Pipe)
    → try_write fuel n now bytes p ≡ some r
    → r.0 ≡ closed_pipe
    → ((p.closed || p.read_closed) ≡ true) × (r.1 ≡ p)
closed_result fuel n now bytes p r =
    try_write_rule R fuel n now bytes p r (λ c _. (c, refl)) (λ q _ _ _ h. cc) (λ _ _ h. cc)
  where
    R : WriteResult × Pipe → Type 0
    R x = x.0 ≡ closed_pipe → ((p.closed || p.read_closed) ≡ true) × (x.1 ≡ p)

peer_closed :
    (w r : Conn) (p : Pipe)
    → PipeInv w r p
    → Open w
    → (p.closed || p.read_closed) ≡ true
    → r.closed ≡ true
peer_closed w r p v o h = ground arith

checked : (now : ℕ) (c : Conn) → write_check now c ≢ some err_broken_pipe
unfolding write_check
checked now c e = ground arith

failed_injective :
    (e : ConnError) → write_failed e ≡ write_failed err_broken_pipe → e ≡ err_broken_pipe
failed_injective e h = cc

-- Whatever runs in between, Write says that the pipe is broken only when the peer has closed its
-- end and this end is neither closed nor reset. The pipe answers in the state l, and the
-- classification is in the later state l'.
pub write_broken_lem :
    (s : Side) (up down : Pipe) (l l' : Link)
    → LinkInv (new_conn_pair up down)
    → LinkReach (new_conn_pair up down) l
    → LinkReach l l'
    → (fuel now later : ℕ) (n : Shared) (bytes : List ℕ) (c : Conn) (q : Pipe)
    → write fuel now later n bytes c (end s l') (write_pipe s l)
      ≡ some (write_failed err_broken_pipe, q)
    → ((end (peer s) l).closed ≡ true) × Open (end s l') × (q ≡ write_pipe s l)
unfolding write
write_broken_lem s up down l l' v reach after fuel now later n bytes c q e =
    from (write_check now c) (checked now c) e
  where
    p : Pipe
    p = write_pipe s l

    Claim : Type 0
    Claim = ((end (peer s) l).closed ≡ true) × Open (end s l') × (q ≡ p)

    from :
        (o : Option ConnError)
        → o ≢ some err_broken_pipe
        → write_pipe_round o fuel n now later bytes (end s l') p
          ≡ some (write_failed err_broken_pipe, q)
        → Claim
    from (some x) other h = absurd (
        other (
          ap some
            (failed_injective x (ap (λ (a : WriteAnswer × Pipe). a.0) (some-injective _ _ h)))))
    from none other h =
        let ((a, q1), found, rest) = >>=-eq-some (try_write fuel n now bytes p) _ h in
        let is : (classify_write later (end s l') a, q1) ≡ (write_failed err_broken_pipe, q) =
          some-injective _ _ rest in
        let (refused, o) =
          broken_classified later (end s l') a (ap (λ (x : WriteAnswer × Pipe). x.0) is) in
        let (shut, same) = closed_result fuel n now bytes p (a, q1) found refused in
        let before = before-Open (end s l) (end s l') (LinkReach-Flags after s) o in
        let inv = pipe_of s l (LinkReach-Inv v reach) in
        (
          peer_closed (end s l) (end (peer s) l) p inv before shut,
          o,
          sym (ap (λ (x : WriteAnswer × Pipe). x.1) is) ∙ same,
        )
