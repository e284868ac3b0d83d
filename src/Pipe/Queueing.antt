-- ===== src/Pipe/Queueing.antt =====
-- The invariant where a unit is discarded, delivered at once or queued for its release.
use netchaos.Base.{
  ℕ, zero, suc, ◌+◌, ◌≤◌, ◌≡◌, refl, sym, ap, ◌∙◌, Bool, false, List, [], ◌∷◌, ◌++◌, ◌==◌, length,
  total, arith, if_cases, total-append, Option, none, some, subst,
}
use netchaos.Faults.{FaultEvent}
use netchaos.Pipe.State.{Pipe, PendingUnit, trace_event, arm_latency_for_append, head_timer}
use netchaos.Pipe.Evaluate.{discard, deliver_now, schedule, clamp_release, flip_bit}
use netchaos.Pipe.Invariant.{Inv, held, OrderedFrom, Armed}

-- A pipe in the middle of a write: the unit's bytes are accounted for, and are not yet queued.
pub record Charged (size : ℕ) (p : Pipe) : Type 0 where
  pub charged : p.buf_bytes ≡ total p.readable + held p.pending + size
  pub ordered : OrderedFrom 0 p.pending
  pub armed : Armed p.pending p.timer
  pub open_end : p.read_closed ≡ false

pub discard-Inv : (e : FaultEvent) (size : ℕ) (p : Pipe) → Charged size p → Inv (discard e size p)
unfolding discard
discard-Inv e size p c = ground arith

pub length-flip_bit : (xs : List ℕ) (i b : ℕ) → length (flip_bit xs i b) ≡ length xs
unfolding flip_bit
length-flip_bit [] i b = refl
length-flip_bit (x ∷ xs) zero b = refl
length-flip_bit (x ∷ xs) (suc i) b = ap suc (length-flip_bit xs i b)

pub deliver_now-Inv :
    (e : FaultEvent) (d : Bool) (bytes : List ℕ) (p : Pipe)
    → Charged (length bytes) p
    → Inv (deliver_now e d bytes p)
unfolding deliver_now
deliver_now-Inv e d bytes p c = ground (
  arith,
  total-append p.readable (bytes ∷ []),
  total-append (p.readable ++ bytes ∷ []) (bytes ∷ []),
)

held-append : (us vs : List PendingUnit) → held (us ++ vs) ≡ held us + held vs
held-append [] vs = omega arith
held-append (u ∷ us) vs = omega (arith, held-append us vs)

head-le-clamp_release :
    (s t : ℕ) (u : PendingUnit) (us : List PendingUnit)
    → OrderedFrom s (u ∷ us)
    → u.release_at ≤ clamp_release t (u ∷ us)
unfolding clamp_release
head-le-clamp_release s t u [] o = ground arith
head-le-clamp_release s t u (v ∷ us) o =
    omega (arith, o.1.0, head-le-clamp_release u.release_at t v us o.1)

-- A unit whose release is clamped against the queue keeps the queue ordered.
pub ordered-append :
    (s t : ℕ) (us : List PendingUnit) (bytes : List ℕ)
    → s ≤ clamp_release t us
    → OrderedFrom s us
    → OrderedFrom s (us ++ record { bytes = bytes; release_at = clamp_release t us } ∷ [])
unfolding clamp_release
ordered-append s t [] bytes h o = (h, tt)
ordered-append s t (u ∷ []) bytes h o = ground arith
ordered-append s t (u ∷ v ∷ us) bytes h o = (
  o.0,
  ordered-append u.release_at t (v ∷ us) bytes
      (omega (arith, o.1.0, head-le-clamp_release u.release_at t v us o.1)) o.1,
)

-- A copy of the last unit, too.
ordered-twice :
    (s r : ℕ) (us : List PendingUnit) (u v : PendingUnit)
    → u.release_at ≡ v.release_at
    → OrderedFrom s (us ++ u ∷ [])
    → OrderedFrom s ((us ++ u ∷ []) ++ v ∷ [])
ordered-twice s r [] u v e o = ground arith
ordered-twice s r (w ∷ us) u v e o = (o.0, ordered-twice w.release_at r us u v e o.1)

append-Armed :
    (us : List PendingUnit) (u : PendingUnit) (t : Option ℕ)
    → Armed us t
    → (length (us ++ u ∷ []) == 1) ≡ false
    → Armed (us ++ u ∷ []) t
append-Armed [] u t a h = cc
append-Armed (v ∷ us) u none a h = a
append-Armed (v ∷ us) u (some t) a h = tt

arm-Armed : (now : ℕ) (us : List PendingUnit) → Armed us (head_timer now us)
unfolding head_timer
arm-Armed now [] = tt
arm-Armed now (u ∷ us) = tt

trace_event-Charged :
    (n : ℕ) (e : FaultEvent) (p : Pipe) → Charged n p → Charged n (trace_event e p)
unfolding trace_event
trace_event-Charged n e p c = ground arith

append-Inv :
    (now : ℕ) (u : PendingUnit) (p : Pipe)
    → Charged (length u.bytes) p
    → OrderedFrom 0 (p.pending ++ u ∷ [])
    → Inv (arm_latency_for_append now (record p { pending = p.pending ++ u ∷ [] }))
unfolding arm_latency_for_append
append-Inv now u p c o =
    if_cases Inv (length (p.pending ++ u ∷ []) == 1) _ _
      (λ _. record {
        accounted = omega (arith, c, held-append p.pending (u ∷ []));
        ordered = o;
        armed = arm-Armed now (p.pending ++ u ∷ []);
        discarded = λ r. absurd (ground (arith, c.open_end));
      })
      (λ e. record {
        accounted = omega (arith, c, held-append p.pending (u ∷ []));
        ordered = o;
        armed = append-Armed p.pending u p.timer c.armed e;
        discarded = λ r. absurd (ground (arith, c.open_end));
      })

pending-arm :
    (now : ℕ) (p : Pipe)
    → ((arm_latency_for_append now p).pending ≡ p.pending)
      × ((arm_latency_for_append now p).read_closed ≡ p.read_closed)
unfolding arm_latency_for_append
pending-arm now p = ground arith

twice-Armed :
    (us : List PendingUnit) (u : PendingUnit) (t : Option ℕ)
    → Armed (us ++ u ∷ []) t
    → Armed ((us ++ u ∷ []) ++ u ∷ []) t
twice-Armed [] u none a = a
twice-Armed [] u (some t) a = tt
twice-Armed (v ∷ us) u none a = a
twice-Armed (v ∷ us) u (some t) a = tt

twice-Inv :
    (u : PendingUnit) (us : List PendingUnit) (q : Pipe)
    → q.pending ≡ us ++ u ∷ []
    → q.read_closed ≡ false
    → Inv q
    → Inv (record q { buf_bytes = q.buf_bytes + length u.bytes; pending = q.pending ++ u ∷ [] })
twice-Inv u us q e r v = record {
  accounted = omega (arith, v.accounted, held-append q.pending (u ∷ []));
  ordered =
      subst (λ xs. OrderedFrom 0 (xs ++ u ∷ [])) (sym e)
        (ordered-twice 0 0 us u u refl (subst (λ xs. OrderedFrom 0 xs) e v.ordered));
  armed =
      subst (λ xs. Armed (xs ++ u ∷ []) q.timer) (sym e)
        (twice-Armed us u q.timer (subst (λ xs. Armed xs q.timer) e v.armed));
  discarded = λ c. absurd (ground (arith, r));
}

pub schedule-Inv :
    (now t : ℕ) (e : FaultEvent) (d : Bool) (bytes : List ℕ) (p : Pipe)
    → Charged (length bytes) p
    → Inv (schedule now (clamp_release t p.pending) e d bytes p)
unfolding schedule
schedule-Inv now t e d bytes p c =
    if_cases Inv d _ _
      (λ _.
        twice-Inv unit p.pending q1 (pending-arm now _).0 ((pending-arm now _).1 ∙ c.open_end) once)
      (λ _. once)
  where
    unit : PendingUnit
    unit = record { bytes = bytes; release_at = clamp_release t p.pending }

    q : Pipe
    q = trace_event e p

    q1 : Pipe
    q1 = arm_latency_for_append now (record q { pending = q.pending ++ unit ∷ [] })

    once : Inv q1
    once =
        append-Inv now unit q (trace_event-Charged (length bytes) e p c)
          (ordered-append 0 t p.pending bytes (omega arith) c.ordered)
