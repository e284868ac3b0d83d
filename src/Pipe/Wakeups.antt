-- ===== src/Pipe/Wakeups.antt =====
-- pipe.go: the channel of a pipe, and the goroutines that wait on it.
use netchaos.Base.{
  ℕ, suc, ◌+◌, ◌-◌, ◌≤◌, ◌<◌, ◌≡◌, refl, ap, ◌∙◌, Bool, true, false, ◌&&◌, ◌||◌, not, List, [], ◌∷◌,
  ◌++◌, ltb, ◌==◌, length, flatten, arith, if_cases, inl, inr, ◌⊎◌, ◌≢◌, some, subst,
}
use netchaos.Faults.{Shared, FaultConfig, FaultEvent, FaultPolicy}
use netchaos.Pipe.State.{
  Pipe, PendingUnit, Deliver, pass_through, evaluator, release_due_latency, move_due, split_due,
  arm_latency_timer, arm_latency_for_append, is_nil,
}
use netchaos.Pipe.Evaluate.{
  evaluate, current, discard, send_unit, schedule, deliver_now, Decision, Sent,
}
use netchaos.Pipe.Ops.{
  WriteResult, ReadResult, consume, at_end, drain, try_read, run_deliver, admit, try_write, close,
  abort,
}
use netchaos.Pipe.Rules.{evaluate_rule, try_write_rule}
use netchaos.Base.{along_some}
use netchaos.Faults.{is_partitioned}
use netchaos.Pipe.State.{trace_event}
use netchaos.Pipe.Evaluate.{lost_event, partitioned_event}
use netchaos.Pipe.Draws.{draw_faults_lem}
use netchaos.Pipe.Steps.{Step, reads, writes, releases, closes, aborts}

-- A reader that found nothing and waits on the pipe's channel.
abbrev pub ReaderWaits : Pipe → Type 0
ReaderWaits p =
    (p.read_closed ≡ false) × (flatten p.readable ≡ []) × ((p.closed ≡ false) ⊎ (p.pending ≢ []))

-- A writer of so many bytes that found no room and waits on it.
abbrev pub WriterWaits : ℕ → Pipe → Type 0
WriterWaits size p =
    (p.closed ≡ false)
    × (p.read_closed ≡ false)
    × (0 < p.buf_bytes)
    × (p.bound < p.buf_bytes + size)

-- The channel was closed, or nothing changed for those who wait on it.
abbrev pub Wakes : Pipe → Pipe → Type 0
Wakes p q =
    (p.notify < q.notify)
    ⊎ ((q.notify ≡ p.notify)
        × (ReaderWaits p → ReaderWaits q)
        × ((size : ℕ) → WriterWaits size p → WriterWaits size q))

release_due_latency-Wakes : (now : ℕ) (p : Pipe) → Wakes p (release_due_latency now p)
unfolding release_due_latency move_due
release_due_latency-Wakes now p =
    if_cases (Wakes p) p.read_closed _ _ (λ _. inr (refl, (λ h. h), (λ s h. h)))
      (λ _.
        if_cases (λ (x : Pipe). Wakes p (arm_latency_timer now x))
          (is_nil (split_due now p.pending).0) _ _ (λ _. inr (refl, (λ h. h), (λ s h. h)))
          (λ _. inl (omega arith)))

close-Wakes : (p : Pipe) → Wakes p (close p)
unfolding close
close-Wakes p =
    if_cases (Wakes p) p.closed _ _ (λ _. inr (refl, (λ h. h), (λ s h. h))) (λ _. inl (omega arith))

abort-Wakes : (p : Pipe) → Wakes p (abort p)
unfolding abort
abort-Wakes p =
    if_cases (Wakes p) p.read_closed _ _ (λ _. inr (refl, (λ h. h), (λ s h. h)))
      (λ _. inl (omega arith))

notify_at_end : (n : Shared) (p : Pipe) → (at_end n p).1.notify ≡ p.notify
unfolding at_end
notify_at_end n p = ground arith

at_end-Wakes : (n : Shared) (p : Pipe) → Wakes p (at_end n p).1
unfolding at_end
at_end-Wakes n p =
    if_cases W (p.closed && is_nil p.pending) _ _
      (λ _.
        if_cases W p.eof_seen _ _ (λ _. same)
          (λ _.
            if_cases W (p.has_network && is_partitioned n p.partition_pair) _ _ (λ _. same)
              (λ _. same)))
      (λ _. same)
  where
    W : ReadResult × Pipe → Type 0
    W r = Wakes p r.1

    same :
        (p.notify < p.notify)
        ⊎ ((p.notify ≡ p.notify)
            × (ReaderWaits p → ReaderWaits p)
            × ((size : ℕ) → WriterWaits size p → WriterWaits size p))
    same = inr (refl, (λ h. h), (λ s h. h))

try_read-Wakes : (n : Shared) (room : ℕ) (p : Pipe) → Wakes p (try_read n room p).1
unfolding try_read drain
try_read-Wakes n room p =
    if_cases W p.read_closed _ _ (λ _. inr (refl, (λ h. h), (λ s h. h)))
      (λ _.
        if_cases W (is_nil p.readable) _ _ (λ _. at_end-Wakes n p)
          (λ _.
            if_cases W (ltb 0 (length (consume room p.readable).0) || room == 0) _ _
              (λ _. inl (omega arith))
              (λ _. inl (
                omega (
                  arith,
                  notify_at_end n (record p {
                    readable = (consume room p.readable).1;
                    buf_bytes = p.buf_bytes - length (consume room p.readable).0;
                    notify = suc p.notify;
                  }),
                )))))
  where
    W : ReadResult × Pipe → Type 0
    W r = Wakes p r.1

-- A unit held back leaves the readers and writers that wait with nothing new.
abbrev Grows : Pipe → Pipe → Type 0
Grows p q =
    (q.readable ≡ p.readable)
    × (q.closed ≡ p.closed)
    × (q.read_closed ≡ p.read_closed)
    × (q.bound ≡ p.bound)
    × (q.notify ≡ p.notify)
    × (p.buf_bytes ≤ q.buf_bytes)
    × (p.pending ≢ [] → q.pending ≢ [])

Grows-Wakes : (p q : Pipe) → Grows p q → Wakes p q
Grows-Wakes p q g = inr (
  g.4,
  (λ h.
      (g.2 ∙ h.0, ap flatten g.0 ∙ h.1, elim h.2 [ inl c ↦ inl (g.1 ∙ c) | inr w ↦ inr (g.6 w) ])),
  (λ size h. (g.1 ∙ h.0, g.2 ∙ h.1, omega (arith, g.5), omega (arith, g.5, g.3))),
)

append_ne_nil : (us : List PendingUnit) (u : PendingUnit) → us ++ u ∷ [] ≢ []
append_ne_nil [] u e = cc
append_ne_nil (v ∷ us) u e = cc

arm-Grows :
    (now : ℕ) (u : PendingUnit) (p : Pipe)
    → Grows p (arm_latency_for_append now (record p { pending = p.pending ++ u ∷ [] }))
unfolding arm_latency_for_append
arm-Grows now u p =
    if_cases (Grows p) (length (p.pending ++ u ∷ []) == 1) _ _
      (λ _. (refl, refl, refl, refl, refl, omega arith, (λ _. append_ne_nil p.pending u)))
      (λ _. (refl, refl, refl, refl, refl, omega arith, (λ _. append_ne_nil p.pending u)))

schedule-Grows :
    (now r : ℕ) (e : FaultEvent) (d : Bool) (bytes : List ℕ) (p : Pipe)
    → Grows p (schedule now r e d bytes p)
unfolding schedule
schedule-Grows now r e d bytes p =
    if_cases (Grows p) d _ _
      (λ _.
        let g = arm-Grows now u t in
        (g.0, g.1, g.2, g.3, g.4, omega (arith, g.5), (λ _. append_ne_nil _ u)))
      (λ _. arm-Grows now u t)
  where
    u : PendingUnit
    u = record { bytes = bytes; release_at = r }

    t : Pipe
    t = trace_event e p

notify-deliver_now :
    (e : FaultEvent) (d : Bool) (bytes : List ℕ) (p : Pipe)
    → (deliver_now e d bytes p).notify ≡ suc p.notify
unfolding deliver_now
notify-deliver_now e true bytes p = refl
notify-deliver_now e false bytes p = refl

notify-discard : (e : FaultEvent) (size : ℕ) (p : Pipe) → (discard e size p).notify ≡ suc p.notify
unfolding discard
notify-discard e size p = refl

wakes_send :
    (cfg : FaultConfig) (now : ℕ) (d : Decision) (size : ℕ) (sent : Sent) (p : Pipe)
    → (p.notify < (send_unit cfg now d size sent p).notify)
      ⊎ Grows p (send_unit cfg now d size sent p)
unfolding send_unit
wakes_send cfg now d size sent p =
    if_cases (λ (x : Pipe). (p.notify < x.notify) ⊎ Grows p x)
      (not cfg.latency_enabled && not cfg.bandwidth_enabled) _ _
      (λ _. inl (omega (arith, notify-deliver_now _ d.duplicated sent.bytes _)))
      (λ _. inr (schedule-Grows now _ _ d.duplicated sent.bytes _))

abbrev Sends : Pipe → Pipe → Type 0
Sends p q = (p.notify < q.notify) ⊎ Grows p q

wakes_evaluate :
    (fuel : ℕ) (n : Shared) (now : ℕ) (fp : FaultPolicy) (bytes : List ℕ) (p q : Pipe)
    → evaluate fuel n now fp bytes p ≡ some q
    → Sends p q
wakes_evaluate fuel n now fp bytes p q =
    evaluate_rule (Sends p) fuel n now bytes fp p q
      (λ _. inl (omega (arith, notify-discard partitioned_event (length bytes) p)))
      (λ d p1 _ drawn _. inl (
        omega (
          arith,
          notify-discard (lost_event (length bytes) d) (length bytes) p1,
          ap (λ (x : Pipe). x.notify) (draw_faults_lem fuel (current fp n) p d p1 drawn).pipe_is,
        )))
      (λ d p1 sent corrupt _ drawn _ _.
        subst
          (λ (x : Pipe).
            Sends x (
              send_unit (current fp n) now d (length bytes) sent (record p1 { corrupt = corrupt })))
          (draw_faults_lem fuel (current fp n) p d p1 drawn).pipe_is
          (wakes_send (current fp n) now d (length bytes) sent (record p1 { corrupt = corrupt })))

wakes_deliver :
    (fuel : ℕ) (n : Shared) (now : ℕ) (dl : Deliver) (bytes : List ℕ) (p q : Pipe)
    → run_deliver fuel n now dl bytes p ≡ some q
    → Sends p q
unfolding run_deliver
wakes_deliver fuel n now pass_through bytes p q e = along_some (Sends p) e (inl (omega arith))
wakes_deliver fuel n now (evaluator fp) bytes p q e = wakes_evaluate fuel n now fp bytes p q e

try_write-Wakes :
    (fuel : ℕ) (n : Shared) (now : ℕ) (bytes : List ℕ) (p : Pipe) (r : WriteResult × Pipe)
    → try_write fuel n now bytes p ≡ some r
    → Wakes p r.1
unfolding admit
try_write-Wakes fuel n now bytes p r =
    try_write_rule (λ (x : WriteResult × Pipe). Wakes p x.1) fuel n now bytes p r
      (λ _. inr (refl, (λ h. h), (λ s h. h)))
      (λ q _ _ e. elim (wakes_deliver fuel n now p.deliver bytes _ q e) [
        | inl h ↦ inl h
        | inr g ↦ Grows-Wakes p q (g.0, g.1, g.2, g.3, g.4, omega (arith, g.5), g.6)
      ])
      (λ _ _. inr (refl, (λ h. h), (λ s h. h)))

-- No wake-up is lost. Each operation closes the pipe's channel, or leaves a reader that waits on it
-- without data and without an end of file, and a writer that waits on it without room.
pub Step-Wakes : {p q : Pipe} → Step p q → Wakes p q
Step-Wakes (reads n room p) = try_read-Wakes n room p
Step-Wakes (writes fuel n now bytes p r e) = try_write-Wakes fuel n now bytes p r e
Step-Wakes (releases now p) = release_due_latency-Wakes now p
Step-Wakes (closes p) = close-Wakes p
Step-Wakes (aborts p) = abort-Wakes p
