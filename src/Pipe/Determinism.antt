-- ===== src/Pipe/Determinism.antt =====
-- faults.go: which units a direction drops and duplicates, over all the units written to it.
use netchaos.Base.{
  ℕ, ◌+◌, ◌≡◌, refl, sym, ap, ◌∙◌, inl, inr, Bool, true, false, ◌&&◌, List, [], ◌∷◌, ◌++◌,
  if◌then◌else◌, length, arith, some, map, append-nil, append_assoc, if_chosen, if_skipped, subst,
}
use netchaos.Faults.{Shared, FaultConfig, FaultEvent, FaultPolicy, is_partitioned}
use netchaos.Rand.{Stream}
use netchaos.Pipe.State.{Pipe, Deliver, evaluator, release_due_latency}
use netchaos.Pipe.Evaluate.{trial, evaluate, current}
use netchaos.Pipe.Ops.{
  WriteResult, wrote, closed_pipe, write_wait, try_read, drain, at_end, try_write, close, abort,
  admit, run_deliver,
}
use netchaos.Pipe.Rules.{try_write_rule}
use netchaos.Pipe.Ends.{try_write-SameEnds}
use netchaos.Pipe.Draws.{advance, Outcome, draw_discipline}
use netchaos.Pipe.Tracing.{EventSpec, one_event}

-- What else happens to a pipe between two units.
pub data Quiet : Pipe → Pipe → Type 0 where
  reading : (n : Shared) (room : ℕ) (p : Pipe) → Quiet p (try_read n room p).1
  releasing : (now : ℕ) (p : Pipe) → Quiet p (release_due_latency now p)
  closing : (p : Pipe) → Quiet p (close p)
  aborting : (p : Pipe) → Quiet p (abort p)

-- The units that were taken in, each with the state of the Network that its evaluation saw.
pub data Run : List Shared → Pipe → Pipe → Type 0 where
  done : (p : Pipe) → Run [] p p
  taking :
      (fuel : ℕ) (n : Shared) (now k : ℕ) (bytes : List ℕ) {us : List Shared} {p q r : Pipe}
      → try_write fuel n now bytes p ≡ some (wrote k, q)
      → Run us q r
      → Run (n ∷ us) p r
  resting : {us : List Shared} {p q r : Pipe} → Quiet p q → Run us q r → Run us p r

pub record Decided : Type 0 where
  pub partitioned : Bool
  pub dropped : Bool
  pub duplicated : Bool

abbrev pub decided : FaultEvent → Decided
decided e = record { partitioned = e.partitioned; dropped = e.dropped; duplicated = e.duplicated }

abbrev pub cut_off : Decided
cut_off = record { partitioned = true; dropped = false; duplicated = false }

abbrev pub drawn_for : FaultConfig → Stream → Stream → Decided
drawn_for cfg loss duplicate = record {
  partitioned = false;
  dropped = (trial cfg.loss_enabled cfg.loss_rate loss).0;
  duplicated = (trial cfg.duplicate_enabled cfg.duplicate_rate duplicate).0;
}

-- The decisions by the two streams, the two settings and the partitions alone.
unfoldable pub predicted : FaultPolicy → List Shared → Stream → Stream → List Decided
predicted fp [] loss duplicate = []
predicted fp (n ∷ us) loss duplicate =
    let cfg = current fp n in
    let uncut =
      predicted fp us (advance cfg.loss_enabled loss) (advance cfg.duplicate_enabled duplicate) in
    let cut = predicted fp us loss duplicate in
    if fp.has_network && is_partitioned n fp.pair
    then cut_off ∷ cut
    else drawn_for cfg loss duplicate ∷ uncut

abbrev pub Kept : Pipe → Pipe → Type 0
Kept p q =
    (q.loss ≡ p.loss) × (q.duplicate ≡ p.duplicate) × (q.trace ≡ p.trace) × (q.deliver ≡ p.deliver)

pub Quiet-Kept : {p q : Pipe} → Quiet p q → Kept p q
unfolding try_read drain at_end release_due_latency close abort
Quiet-Kept (reading n room p) = ground arith
Quiet-Kept (releasing now p) = ground arith
Quiet-Kept (closing p) = ground arith
Quiet-Kept (aborting p) = ground arith

abbrev pub Evaluated : ℕ → Shared → ℕ → FaultPolicy → List ℕ → Pipe → WriteResult × Pipe → Type 0
Evaluated fuel n now fp bytes p (wrote k, q) =
    evaluate fuel n now fp bytes (record p { buf_bytes = p.buf_bytes + length bytes }) ≡ some q
Evaluated fuel n now fp bytes p (closed_pipe, q) = Unit
Evaluated fuel n now fp bytes p (write_wait w, q) = Unit

pub try_write-Evaluated :
    (fuel : ℕ) (n : Shared) (now : ℕ) (fp : FaultPolicy) (bytes : List ℕ) (p : Pipe)
    (r : WriteResult × Pipe)
    → p.deliver ≡ evaluator fp
    → try_write fuel n now bytes p ≡ some r
    → Evaluated fuel n now fp bytes p r
unfolding admit run_deliver
try_write-Evaluated fuel n now fp bytes p r is_fp =
    try_write_rule (Evaluated fuel n now fp bytes p) fuel n now bytes p r (λ _. tt)
      (λ q _ _ e.
        subst
          (λ (d : Deliver).
            run_deliver fuel n now d bytes (record p { buf_bytes = p.buf_bytes + length bytes })
            ≡ some q)
          is_fp e)
      (λ _ _. tt)

-- How the prediction goes on behind a unit.
unit-predicted :
    (fuel : ℕ) (n : Shared) (fp : FaultPolicy) (bytes : List ℕ) (p q : Pipe) (e : FaultEvent)
    (us : List Shared)
    → Outcome fuel n fp p q
    → EventSpec fuel n fp bytes p e
    → predicted fp (n ∷ us) p.loss p.duplicate ≡ decided e ∷ predicted fp us q.loss q.duplicate
unfolding predicted
unit-predicted fuel n fp bytes p q e us (inl (c, s)) (inl (_, is)) =
    let tail : predicted fp us p.loss p.duplicate ≡ predicted fp us q.loss q.duplicate =
      ap (λ l. predicted fp us l p.duplicate) (sym s.0)
      ∙ ap (λ d. predicted fp us q.loss d) (sym s.2) in
    if_chosen _ c (cut_off ∷ predicted fp us p.loss p.duplicate) _
    ∙ (λ i. ap decided (sym is) i ∷ tail i)
unit-predicted fuel n fp bytes p q e us (inl (c, s)) (inr spec) =
    absurd (let both : true ≡ false = sym c ∙ spec.0 in cc)
unit-predicted fuel n fp bytes p q e us (inr (c, s)) (inl (d, is)) =
    absurd (let both : true ≡ false = sym d ∙ c in cc)
unit-predicted fuel n fp bytes p q e us (inr (c, s)) (inr spec) =
    let cfg = current fp n in
    let head : drawn_for cfg p.loss p.duplicate ≡ decided e = λ i. record {
      partitioned = sym spec.4 i;
      dropped = sym (spec.5 ∙ spec.3.dropped_is) i;
      duplicated = sym (spec.6 ∙ spec.3.duplicated_is) i;
    } in
    let tail : predicted fp us (advance cfg.loss_enabled p.loss)
          (advance cfg.duplicate_enabled p.duplicate)
        ≡ predicted fp us q.loss q.duplicate =
      ap (λ l. predicted fp us l (advance cfg.duplicate_enabled p.duplicate)) (sym s.loss_is)
      ∙ ap (λ d. predicted fp us q.loss d) (sym s.duplicate_is) in
    if_skipped _ c (cut_off ∷ predicted fp us p.loss p.duplicate) _ ∙ (λ i. head i ∷ tail i)

-- The units that a direction drops and duplicates, over all that it takes in, are those that its
-- loss stream and its duplication stream give for the loss and duplication settings and the
-- partitions that each unit saw: the events recorded say so, one for each unit, in order. Neither
-- the bytes and the instants of the writes nor latency, bandwidth, corruption, the reads, the timer
-- and the closes in between have any part in it.
pub Run-predicted :
    (fp : FaultPolicy) {us : List Shared} {p r : Pipe} (events : List FaultEvent)
    → Run us p r
    → p.deliver ≡ evaluator fp
    → p.trace ≡ some events
    → (added : List FaultEvent) × (r.trace ≡ some (events ++ added))
      × (map decided added ≡ predicted fp us p.loss p.duplicate)
unfolding predicted
Run-predicted fp events (done p) is_fp t = ([], t ∙ ap some (sym (append-nil events)), refl)
Run-predicted fp {p} events (taking fuel n now k bytes {us} {q = q} {r} e run) is_fp t =
    let before : Pipe = record p { buf_bytes = p.buf_bytes + length bytes } in
    let ev = try_write-Evaluated fuel n now fp bytes p (wrote k, q) is_fp e in
    let (x, spec, traced) = one_event fuel n now fp bytes before q events t ev in
    let kept = try_write-SameEnds fuel n now bytes p (wrote k, q) e in
    let event : FaultEvent = record x { seq = length events } in
    let (added, at_end, same) =
      Run-predicted fp (events ++ event ∷ []) run (kept.2 ∙ is_fp) traced in
    (
      event ∷ added,
      at_end ∙ ap some (append_assoc events (event ∷ []) added),
      ap (λ l. decided event ∷ l) same
          ∙ sym (
              unit-predicted fuel n fp bytes before q x us
                (draw_discipline fuel n now fp bytes before q ev) spec),
    )
Run-predicted fp {us} {p} events (resting {q = q} step run) is_fp t =
    let kept = Quiet-Kept step in
    let (added, at_end, same) = Run-predicted fp events run (kept.3 ∙ is_fp) (kept.2 ∙ t) in
    (
      added,
      at_end,
      same
          ∙ ap (λ l. predicted fp us l q.duplicate) kept.0
          ∙ ap (λ d. predicted fp us p.loss d) kept.1,
    )
