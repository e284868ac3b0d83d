-- ===== src/Listener/Queue.antt =====
-- The bound of the queue, and where each connection goes.
use netchaos.Base.{
  ℕ, suc, ◌+◌, ◌≤◌, ◌<◌, ◌≡◌, ◌≢◌, refl, ap, ◌∙◌, ◌⊎◌, inl, inr, Bool, true, ◌&&◌, not, Option,
  none, some, List, [], ◌∷◌, ◌++◌, length, ltb, ◌==◌, if◌then◌else◌, arith, length-append, if_cases,
  Bool-cases, ltb→lt,
}
use netchaos.Listener.{
  Listener, new_listener, reserve, FillResult, queued, conn_closed, send_blocked, fill,
  AcceptResult, accepted, err_closed, accept_blocked, accept, accept_from, drain_from, mark_closed,
  drain_one,
}

-- A listener and the history of its connections: those filled in, those that Accept returned, and
-- those that were closed.
pub record History : Type 0 where
  pub listener : Listener
  pub filled : List ℕ
  pub taken : List ℕ
  pub dropped : List ℕ

abbrev pub count : ℕ → List ℕ → ℕ
count c [] = 0
count c (x ∷ xs) = if x == c then suc (count c xs) else count c xs

-- What became of a connection that was handed to a fill.
abbrev pub after_fill : ℕ → FillResult × Listener → History → History
after_fill c (queued, l) h = record h { listener = l; filled = c ∷ h.filled }
after_fill c (conn_closed, l) h = record h {
  listener = l;
  filled = c ∷ h.filled;
  dropped = c ∷ h.dropped;
}
after_fill c (send_blocked, l) h = record h { listener = l; filled = c ∷ h.filled }

abbrev pub after_accept : AcceptResult × Listener → History → History
after_accept (accepted c, l) h = record h { listener = l; taken = c ∷ h.taken }
after_accept (err_closed, l) h = record h { listener = l }
after_accept (accept_blocked, l) h = record h { listener = l }

abbrev pub after_drain : Option ℕ × Listener → History → History
after_drain (some c, l) h = record h { listener = l; dropped = c ∷ h.dropped }
after_drain (none, l) h = record h { listener = l }

-- One step of a goroutine. A dial fills the slot that it reserved, so a slot is reserved then, and
-- Close receives once it has marked the listener.
pub data QueueStep : History → History → Type 0 where
  reserving : (h : History) → QueueStep h (record h { listener = (reserve h.listener).1 })
  filling :
      (c : ℕ) (h : History)
      → 0 < h.listener.reserved
      → QueueStep h (after_fill c (fill c h.listener) h)
  accepting : (first : Bool) (h : History) → QueueStep h (after_accept (accept first h.listener) h)
  marking : (h : History) → QueueStep h (record h { listener = mark_closed h.listener })
  draining :
      (h : History) → h.listener.closed ≡ true → QueueStep h (after_drain (drain_one h.listener) h)

pub data QueueReach (h : History) : History → Type 0 where
  here : QueueReach h h
  then_step : {g k : History} → QueueReach h g → QueueStep g k → QueueReach h k

abbrev pub Placed : History → Type 0
Placed h =
    (c : ℕ) → count c h.taken + count c h.dropped + count c h.listener.incoming ≡ count c h.filled

-- The queue and the slots claimed are within the bound, and each connection is in one place.
pub record QueueInv (h : History) : Type 0 where
  pub within : length h.listener.incoming + h.listener.reserved ≤ h.listener.bound
  pub placed : Placed h

count-append : (c : ℕ) (xs ys : List ℕ) → count c (xs ++ ys) ≡ count c xs + count c ys
count-append c [] ys = omega arith
count-append c (x ∷ xs) ys = ground (arith, count-append c xs ys)

pub fill_sends :
    (c : ℕ) (l : Listener)
    → 0 < l.reserved
    → length l.incoming + l.reserved ≤ l.bound
    → (fill c l).0 ≢ send_blocked
unfolding fill
fill_sends c l h b = ground arith

accept_from-Inv :
    (first : Bool) (h : History) (cs : List ℕ)
    → h.listener.incoming ≡ cs
    → QueueInv h
    → QueueInv (after_accept (accept_from first h.listener cs) h)
unfolding accept_from
accept_from-Inv first h [] e v = if_cases P h.listener.closed _ _ (λ _. v) (λ _. v)
  where
    P : AcceptResult × Listener → Type 0
    P r = QueueInv (after_accept r h)
accept_from-Inv first h (c ∷ cs) e v =
    if_cases P (h.listener.closed && not first) _ _ (λ _. v)
      (λ _. record {
        within = ground (arith, v.within);
        placed = λ d. ground (arith, v.placed d, ap (count d) e);
      })
  where
    P : AcceptResult × Listener → Type 0
    P r = QueueInv (after_accept r h)

drain_from-Inv :
    (h : History) (cs : List ℕ)
    → h.listener.incoming ≡ cs
    → QueueInv h
    → QueueInv (after_drain (drain_from h.listener cs) h)
unfolding drain_from
drain_from-Inv h [] e v = v
drain_from-Inv h (c ∷ cs) e v = record {
  within = ground (arith, v.within);
  placed = λ d. ground (arith, v.placed d, ap (count d) e);
}

fill-Inv :
    (c : ℕ) (h : History)
    → 0 < h.listener.reserved
    → QueueInv h
    → QueueInv (after_fill c (fill c h.listener) h)
unfolding fill
fill-Inv c h r v =
    if_cases P h.listener.closed _ _
      (λ _. record { within = omega (arith, v.within); placed = λ d. ground (arith, v.placed d) })
      (λ _.
        if_cases P (ltb (length h.listener.incoming) h.listener.bound) _ _
          (λ _. record {
            within = omega (arith, v.within, length-append h.listener.incoming (c ∷ []));
            placed = λ d. ground (arith, v.placed d, count-append d h.listener.incoming (c ∷ []));
          })
          (λ e. absurd (ground (arith, v.within))))
  where
    P : FillResult × Listener → Type 0
    P x = QueueInv (after_fill c x h)

reserve_kept :
    (l : Listener)
    → length l.incoming + l.reserved ≤ l.bound
    → ((reserve l).1.incoming ≡ l.incoming)
      × (length (reserve l).1.incoming + (reserve l).1.reserved ≤ (reserve l).1.bound)
unfolding reserve
reserve_kept l v = ground arith

reserve-Inv : (h : History) → QueueInv h → QueueInv (record h { listener = (reserve h.listener).1 })
reserve-Inv h v =
    let (kept, within) = reserve_kept h.listener v.within in
    record {
      within = within;
      placed = λ d.
          ap (λ (cs : List ℕ). count d h.taken + count d h.dropped + count d cs) kept ∙ v.placed d;
    }

QueueStep-Inv : {h g : History} → QueueStep h g → QueueInv h → QueueInv g
unfolding accept drain_one mark_closed
QueueStep-Inv (reserving h) v = reserve-Inv h v
QueueStep-Inv (filling c h r) v = fill-Inv c h r v
QueueStep-Inv (accepting first h) v = accept_from-Inv first h h.listener.incoming refl v
QueueStep-Inv (marking h) v = record { within = v.within; placed = v.placed }
QueueStep-Inv (draining h e) v = drain_from-Inv h h.listener.incoming refl v

abbrev pub fresh : ℕ → History
fresh bound = record { listener = new_listener bound; filled = []; taken = []; dropped = [] }

fresh-Inv : (bound : ℕ) → QueueInv (fresh bound)
unfolding new_listener
fresh-Inv bound = record { within = omega arith; placed = λ d. omega arith }

QueueReach-Inv : {h g : History} → QueueInv h → QueueReach h g → QueueInv g
QueueReach-Inv v here = v
QueueReach-Inv v (then_step r s) = QueueStep-Inv s (QueueReach-Inv v r)

-- Whatever dials, Accepts and Closes interleave, the queue and the slots claimed stay within the
-- backlog, the send of a fill never blocks while a slot is reserved, and every connection handed to
-- a fill is in one place, once: accepted, closed by the listener, or still in the queue.
pub fresh-QueueReach :
    (bound c : ℕ) (h : History)
    → QueueReach (fresh bound) h
    → (length h.listener.incoming + h.listener.reserved ≤ h.listener.bound)
      × Placed h
      × ((h.listener.reserved ≡ 0) ⊎ ((fill c h.listener).0 ≢ send_blocked))
fresh-QueueReach bound c h r =
    let v = QueueReach-Inv (fresh-Inv bound) r in
    (
      v.within,
      v.placed,
      elim (Bool-cases (ltb 0 h.listener.reserved)) [
        | inl e ↦ inr (fill_sends c h.listener (ltb→lt 0 h.listener.reserved e) v.within)
        | inr e ↦ inl (ground arith)
      ],
    )
