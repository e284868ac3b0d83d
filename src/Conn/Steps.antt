-- ===== src/Conn/Steps.antt =====
-- Every interleaving of what the goroutines of a connection do, one action at a time.
use netchaos.Base.{ℕ, ap, ◌∙◌, ◌≡◌, ◌⊎◌, refl, true, false, List, some, inl, inr, arith}
use netchaos.Rand.{Side, dialer, acceptor}
use netchaos.Faults.{Shared}
use netchaos.Pipe.State.{Pipe, release_due_latency}
use netchaos.Pipe.Ops.{WriteResult, try_read, try_write, close, abort}
use netchaos.Pipe.Ends.{
  SameEnds, try_read-SameEnds, release_due_latency-SameEnds, try_write-SameEnds,
}
use netchaos.Conn.{
  Conn, Link, new_conn_pair, peer, end, write_pipe, read_pipe, set_end, set_write_pipe,
  set_read_pipe, mark_closed, close_write_pipe, abort_read_pipe, stop_deadlines, signal_reset,
  abort_reset,
}

-- An action of one end. The actions inside Close and Reset come after those that the code puts
-- ahead of them.
pub data LinkStep : Link → Link → Type 0 where
  reading :
      (s : Side) (n : Shared) (room : ℕ) (l : Link)
      → LinkStep l (set_read_pipe s (try_read n room (read_pipe s l)).1 l)
  writing :
      (s : Side) (fuel : ℕ) (n : Shared) (now : ℕ) (bytes : List ℕ) (l : Link)
      (r : WriteResult × Pipe)
      → try_write fuel n now bytes (write_pipe s l) ≡ some r
      → LinkStep l (set_write_pipe s r.1 l)
  releasing :
      (s : Side) (now : ℕ) (l : Link)
      → LinkStep l (set_write_pipe s (release_due_latency now (write_pipe s l)) l)
  marking_closed : (s : Side) (l : Link) → LinkStep l (mark_closed s l)
  closing_write :
      (s : Side) (l : Link) → (end s l).closed ≡ true → LinkStep l (close_write_pipe s l)
  aborting_read : (s : Side) (l : Link) → (end s l).closed ≡ true → LinkStep l (abort_read_pipe s l)
  stopping : (s : Side) (l : Link) → (end s l).closed ≡ true → LinkStep l (stop_deadlines s l)
  setting :
      (s : Side) (c : Conn) (l : Link)
      → c.closed ≡ (end s l).closed
      → c.reset ≡ (end s l).reset
      → LinkStep l (set_end s c l)
  signaling : (s : Side) (l : Link) → LinkStep l (signal_reset s l)
  aborting_reset :
      (s : Side) (l : Link)
      → (end s l).reset ≡ true
      → ((end (peer s) l).reset ≡ true) ⊎ ((end (peer s) l).closed ≡ true)
      → LinkStep l (abort_reset s l)

pub data LinkReach (l : Link) : Link → Type 0 where
  here : LinkReach l l
  then_step : {m k : Link} → LinkReach l m → LinkStep m k → LinkReach l k

-- Why a pipe from the end w to the end r may be closed, and its reading end.
abbrev pub PipeInv : Conn → Conn → Pipe → Type 0
PipeInv w r p =
    (p.closed ≡ true
      → (w.closed ≡ true) ⊎ (r.closed ≡ true) ⊎ ((w.reset ≡ true) × (r.reset ≡ true)))
    × (p.read_closed ≡ true
        → (r.closed ≡ true) ⊎ ((r.reset ≡ true) × ((w.reset ≡ true) ⊎ (w.closed ≡ true))))

abbrev pub LinkInv : Link → Type 0
LinkInv l = PipeInv l.client l.server l.up × PipeInv l.server l.client l.down

pipe_step : (w r : Conn) (p q : Pipe) → SameEnds p q → PipeInv w r p → PipeInv w r q
pipe_step w r p q s v = ground arith

close_step : (w r : Conn) (p : Pipe) → w.closed ≡ true → PipeInv w r p → PipeInv w r (close p)
unfolding close
close_step w r p c v = ground arith

abort_step :
    (w r : Conn) (p : Pipe)
    → (r.closed ≡ true) ⊎ ((r.reset ≡ true) × ((w.reset ≡ true) ⊎ (w.closed ≡ true)))
    → PipeInv w r p
    → PipeInv w r (abort p)
unfolding abort
abort_step w r p c v = ground arith

-- Flags that are up stay up.
abbrev pub Flags : Conn → Conn → Type 0
Flags c c' = (c.closed ≡ true → c'.closed ≡ true) × (c.reset ≡ true → c'.reset ≡ true)

conn_step :
    (w r w' r' : Conn) (p : Pipe) → Flags w w' → Flags r r' → PipeInv w r p → PipeInv w' r' p
conn_step w r w' r' p f g v = ground arith

same : (c : Conn) → Flags c c
same c = ((λ h. h), (λ h. h))

set_write_pipe-Flags :
    (t s : Side) (p : Pipe) (l : Link) → Flags (end s l) (end s (set_write_pipe t p l))
unfolding end set_write_pipe
set_write_pipe-Flags dialer dialer p l = same l.client
set_write_pipe-Flags dialer acceptor p l = same l.server
set_write_pipe-Flags acceptor dialer p l = same l.client
set_write_pipe-Flags acceptor acceptor p l = same l.server

set_end-Flags :
    (t s : Side) (c : Conn) (l : Link) → Flags (end t l) c → Flags (end s l) (end s (set_end t c l))
unfolding end set_end
set_end-Flags dialer dialer c l f = f
set_end-Flags dialer acceptor c l f = same l.server
set_end-Flags acceptor dialer c l f = same l.client
set_end-Flags acceptor acceptor c l f = f

-- Each pipe, from the end that writes to it.
pub pipe_of :
    (t : Side) (l : Link) → LinkInv l → PipeInv (end t l) (end (peer t) l) (write_pipe t l)
unfolding end peer write_pipe
pipe_of dialer l v = v.0
pipe_of acceptor l v = v.1

inv_pipe :
    (t : Side) (p : Pipe) (l : Link)
    → PipeInv (end t l) (end (peer t) l) p
    → LinkInv l
    → LinkInv (set_write_pipe t p l)
unfolding end peer set_write_pipe
inv_pipe dialer p l i v = (i, v.1)
inv_pipe acceptor p l i v = (v.0, i)

inv_end : (t : Side) (c : Conn) (l : Link) → Flags (end t l) c → LinkInv l → LinkInv (set_end t c l)
unfolding end set_end
inv_end dialer c l f v = (
  conn_step l.client l.server c l.server l.up f (same l.server) v.0,
  conn_step l.server l.client l.server c l.down (same l.server) f v.1,
)
inv_end acceptor c l f v = (
  conn_step l.client l.server l.client c l.up (same l.client) f v.0,
  conn_step l.server l.client c l.client l.down f (same l.client) v.1,
)

pub peer-peer : (s : Side) → peer (peer s) ≡ s
unfolding peer
peer-peer dialer = refl
peer-peer acceptor = refl

end-peer : (s : Side) (l : Link) → end (peer (peer s)) l ≡ end s l
end-peer s l = ap (λ t. end t l) (peer-peer s)

closed-Flags : (c : Conn) → Flags c (record c { closed = true })
closed-Flags c = ((λ _. refl), (λ h. h))

reset-Flags : (c : Conn) → Flags c (record c { reset = true })
reset-Flags c = ((λ h. h), (λ _. refl))

equal-Flags : (c d : Conn) → c.closed ≡ d.closed → c.reset ≡ d.reset → Flags d c
equal-Flags c d e f = ((λ h. e ∙ h), (λ h. f ∙ h))

pub abort_reset-Flags : (s t : Side) (l : Link) → Flags (end s l) (end s (abort_reset t l))
unfolding abort_reset set_read_pipe
abort_reset-Flags s t l =
    let f = set_write_pipe-Flags t s (abort (write_pipe t l)) l in
    let m : Link = set_write_pipe t (abort (write_pipe t l)) l in
    let g = set_write_pipe-Flags (peer t) s (abort (read_pipe t m)) m in
    ((λ h. g.0 (f.0 h)), (λ h. g.1 (f.1 h)))

pub LinkStep-Flags : {l m : Link} → LinkStep l m → (s : Side) → Flags (end s l) (end s m)
unfolding set_read_pipe mark_closed close_write_pipe abort_read_pipe stop_deadlines signal_reset
LinkStep-Flags (reading t n room l) s = set_write_pipe-Flags (peer t) s _ l
LinkStep-Flags (writing t fuel n now bytes l r e) s = set_write_pipe-Flags t s _ l
LinkStep-Flags (releasing t now l) s = set_write_pipe-Flags t s _ l
LinkStep-Flags (marking_closed t l) s = set_end-Flags t s _ l (closed-Flags (end t l))
LinkStep-Flags (closing_write t l e) s = set_write_pipe-Flags t s _ l
LinkStep-Flags (aborting_read t l e) s = set_write_pipe-Flags (peer t) s _ l
LinkStep-Flags (stopping t l e) s = set_end-Flags t s _ l (same (end t l))
LinkStep-Flags (setting t c l e f) s = set_end-Flags t s c l (equal-Flags c (end t l) e f)
LinkStep-Flags (signaling t l) s = set_end-Flags t s _ l (reset-Flags (end t l))
LinkStep-Flags (aborting_reset t l e f) s = abort_reset-Flags s t l

pub LinkReach-Flags : {l m : Link} → LinkReach l m → (s : Side) → Flags (end s l) (end s m)
LinkReach-Flags {l} here s = same (end s l)
LinkReach-Flags (then_step r t) s =
    let f = LinkReach-Flags r s in
    let g = LinkStep-Flags t s in ((λ h. g.0 (f.0 h)), (λ h. g.1 (f.1 h)))

-- Both pipes of an end that was reset may be aborted, once its peer was reset too, or is closed.
abbrev Resettable : Side → Link → Type 0
Resettable t l =
    ((end t l).reset ≡ true) × (((end (peer t) l).reset ≡ true) ⊎ ((end (peer t) l).closed ≡ true))

aborted_write :
    (t : Side) (l : Link)
    → Resettable t l
    → LinkInv l
    → LinkInv (set_write_pipe t (abort (write_pipe t l)) l)
aborted_write t l (e, f) v =
    inv_pipe t _ l
      (abort_step (end t l) (end (peer t) l) (write_pipe t l)
        (elim f [ inl reset ↦ inr (reset, inl e) | inr closed ↦ inl closed ]) (pipe_of t l v))
      v

aborted_read :
    (t : Side) (l : Link)
    → Resettable t l
    → LinkInv l
    → LinkInv (set_write_pipe (peer t) (abort (write_pipe (peer t) l)) l)
aborted_read t l (e, f) v =
    inv_pipe (peer t) _ l
      (abort_step (end (peer t) l) (end (peer (peer t)) l) (write_pipe (peer t) l)
        (inr (ap (λ (c : Conn). c.reset) (end-peer t l) ∙ e, f)) (pipe_of (peer t) l v))
      v

LinkStep-Inv : {l m : Link} → LinkStep l m → LinkInv l → LinkInv m
unfolding set_read_pipe read_pipe mark_closed close_write_pipe abort_read_pipe stop_deadlines
    signal_reset abort_reset
LinkStep-Inv (reading t n room l) v =
    inv_pipe (peer t) _ l
      (pipe_step (end (peer t) l) (end (peer (peer t)) l) (write_pipe (peer t) l)
        (try_read n room (write_pipe (peer t) l)).1
        (try_read-SameEnds n room (write_pipe (peer t) l)) (pipe_of (peer t) l v))
      v
LinkStep-Inv (writing t fuel n now bytes l r e) v =
    inv_pipe t _ l
      (pipe_step (end t l) (end (peer t) l) (write_pipe t l) r.1
        (try_write-SameEnds fuel n now bytes (write_pipe t l) r e) (pipe_of t l v))
      v
LinkStep-Inv (releasing t now l) v =
    inv_pipe t _ l
      (pipe_step (end t l) (end (peer t) l) (write_pipe t l)
        (release_due_latency now (write_pipe t l))
        (release_due_latency-SameEnds now (write_pipe t l)) (pipe_of t l v))
      v
LinkStep-Inv (marking_closed t l) v = inv_end t _ l (closed-Flags (end t l)) v
LinkStep-Inv (closing_write t l e) v =
    inv_pipe t _ l (close_step (end t l) (end (peer t) l) (write_pipe t l) e (pipe_of t l v)) v
LinkStep-Inv (aborting_read t l e) v =
    inv_pipe (peer t) _ l
      (abort_step (end (peer t) l) (end (peer (peer t)) l) (write_pipe (peer t) l)
        (inl (ap (λ (c : Conn). c.closed) (end-peer t l) ∙ e)) (pipe_of (peer t) l v))
      v
LinkStep-Inv (stopping t l e) v = inv_end t _ l (same (end t l)) v
LinkStep-Inv (setting t c l e f) v = inv_end t c l (equal-Flags c (end t l) e f) v
LinkStep-Inv (signaling t l) v = inv_end t _ l (reset-Flags (end t l)) v
LinkStep-Inv (aborting_reset t l e f) v =
    let g = set_write_pipe-Flags t t (abort (write_pipe t l)) l in
    let h = set_write_pipe-Flags t (peer t) (abort (write_pipe t l)) l in
    aborted_read t (set_write_pipe t (abort (write_pipe t l)) l)
      (g.1 e, elim f [ inl reset ↦ inl (h.1 reset) | inr closed ↦ inr (h.0 closed) ])
      (aborted_write t l (e, f) v)

pub LinkReach-Inv : {l m : Link} → LinkInv l → LinkReach l m → LinkInv m
LinkReach-Inv v here = v
LinkReach-Inv v (then_step r s) = LinkStep-Inv s (LinkReach-Inv v r)

pub new_conn_pair-Inv :
    (up down : Pipe)
    → up.closed ≡ false
    → up.read_closed ≡ false
    → down.closed ≡ false
    → down.read_closed ≡ false
    → LinkInv (new_conn_pair up down)
unfolding new_conn_pair
new_conn_pair-Inv up down a b c d = ground arith
