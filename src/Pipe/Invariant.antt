-- ===== src/Pipe/Invariant.antt =====
-- What holds of a pipe between two operations.
use netchaos.Base.{
  ℕ, zero, suc, ◌+◌, ◌-◌, ◌≤◌, ◌≡◌, refl, true, false, List, [], ◌∷◌, length, total, arith,
  if_cases, map, length-append, length-take, length-drop, total-append, Option, none, some,
}
use netchaos.Faults.{Shared}
use netchaos.Pipe.State.{Pipe, PendingUnit, is_nil, head_timer, split_due, release_due_latency}
use netchaos.Pipe.Ops.{ReadResult, consume, at_end, drain, try_read, close, abort}

abbrev pub unit_bytes : PendingUnit → List ℕ
unit_bytes u = u.bytes

-- The bytes held back in the pipe.
abbrev pub held : List PendingUnit → ℕ
held us = total (map unit_bytes us)

-- Each release instant is not before the one ahead of it, the first not before t.
abbrev pub OrderedFrom : ℕ → List PendingUnit → Type 0
OrderedFrom t [] = Unit {0}
OrderedFrom t (u ∷ us) = (t ≤ u.release_at) × OrderedFrom u.release_at us

-- One timer is live while units are pending, and none otherwise.
abbrev pub Armed : List PendingUnit → Option ℕ → Type 0
Armed [] none = Unit {0}
Armed [] (some t) = ⊥
Armed (u ∷ us) none = ⊥
Armed (u ∷ us) (some t) = Unit {0}

abbrev pub Discarded : Pipe → Type 0
Discarded p = (p.closed ≡ true) × (p.readable ≡ []) × (p.pending ≡ []) × (p.timer ≡ none)

pub record Inv (p : Pipe) : Type 0 where
  pub accounted : p.buf_bytes ≡ total p.readable + held p.pending
  pub ordered : OrderedFrom 0 p.pending
  pub armed : Armed p.pending p.timer
  pub discarded : p.read_closed ≡ true → Discarded p

total-consume :
    (room : ℕ) (cs : List (List ℕ))
    → length (consume room cs).0 + total (consume room cs).1 ≡ total cs
unfolding consume
total-consume zero [] = refl
total-consume (suc r) [] = refl
total-consume zero (c ∷ cs) = omega arith
total-consume (suc r) (c ∷ cs) = ground (
  arith,
  total-consume (suc r - length c) cs,
  length-append c (consume (suc r - length c) cs).0,
  length-take (suc r) c,
  length-drop (suc r) c,
)

at_end-Inv : (n : Shared) (p : Pipe) → Inv p → Inv (at_end n p).1
unfolding at_end
at_end-Inv n p v = ground arith

drain-Inv :
    (n : Shared) (room : ℕ) (p : Pipe) → p.read_closed ≡ false → Inv p → Inv (drain n room p).1
unfolding drain
drain-Inv n room p o v = ground (
  arith,
  total-consume room p.readable,
  at_end-Inv n (record p {
    readable = (consume room p.readable).1;
    buf_bytes = p.buf_bytes - length (consume room p.readable).0;
    notify = suc p.notify;
  }),
)

abbrev Good : ReadResult × Pipe → Type 0
Good r = Inv r.1

pub try_read-Inv : (n : Shared) (room : ℕ) (p : Pipe) → Inv p → Inv (try_read n room p).1
unfolding try_read
try_read-Inv n room p v =
    if_cases Good p.read_closed _ _ (λ _. v)
      (λ e.
        if_cases Good (is_nil p.readable) _ _ (λ _. at_end-Inv n p v) (λ _. drain-Inv n room p e v))

pub close-Inv : (p : Pipe) → Inv p → Inv (close p)
unfolding close
close-Inv p v = ground arith

pub abort-Inv : (p : Pipe) → Inv p → Inv (abort p)
unfolding abort
abort-Inv p v = ground arith

total-split_due :
    (now : ℕ) (us : List PendingUnit)
    → total (split_due now us).0 + held (split_due now us).1 ≡ held us
unfolding split_due
total-split_due now [] = refl
total-split_due now (u ∷ us) = ground (arith, total-split_due now us)

OrderedFrom-mono : (s t : ℕ) (us : List PendingUnit) → s ≤ t → OrderedFrom t us → OrderedFrom s us
OrderedFrom-mono s t [] h o = tt
OrderedFrom-mono s t (u ∷ us) h o = (omega arith, o.1)

split_due-OrderedFrom :
    (now t : ℕ) (us : List PendingUnit) → OrderedFrom t us → OrderedFrom t (split_due now us).1
unfolding split_due
split_due-OrderedFrom now t [] o = tt
split_due-OrderedFrom now t (u ∷ us) o = ground (
  arith,
  split_due-OrderedFrom now u.release_at us o.1,
  OrderedFrom-mono t u.release_at (split_due now us).1,
)

head_timer-Armed : (now : ℕ) (us : List PendingUnit) → Armed us (head_timer now us)
unfolding head_timer
head_timer-Armed now [] = tt
head_timer-Armed now (u ∷ us) = tt

split_due_nil :
    (now : ℕ) (us : List PendingUnit)
    → is_nil (split_due now us).0 ≡ true
    → (split_due now us).1 ≡ us
unfolding split_due
split_due_nil now [] h = refl
split_due_nil now (u ∷ us) h = ground arith

pub release_due_latency-Inv : (now : ℕ) (p : Pipe) → Inv p → Inv (release_due_latency now p)
unfolding release_due_latency
release_due_latency-Inv now p v = ground (
  arith,
  total-split_due now p.pending,
  split_due-OrderedFrom now 0 p.pending v.ordered,
  head_timer-Armed now p.pending,
  head_timer-Armed now (split_due now p.pending).1,
  total-append p.readable (split_due now p.pending).0,
)
