-- ===== src/Pipe/Growth.antt =====
-- faults.go: how much a direction takes in, over all the units written to it.
use netchaos.Base.{
  ℕ, ◌+◌, ◌-◌, ◌*◌, ◌≤◌, ◌≡◌, refl, sym, ap, ◌∙◌, inl, inr, Bool, true, false, ◌&&◌, not, ◌==◌,
  List, [], ◌∷◌, ◌++◌, if◌then◌else◌, length, arith, some, if_cases, if_chosen, if_skipped,
}
use netchaos.Faults.{Shared, FaultEvent, FaultPolicy, is_partitioned}
use netchaos.Rand.{Stream}
use netchaos.Pipe.State.{Pipe, PendingUnit, trace_event, evaluator, arm_latency_for_append}
use netchaos.Pipe.Evaluate.{
  Decision, Sent, current, discard, deliver_now, schedule, send_unit, evaluate,
}
use netchaos.Pipe.Ops.{wrote}
use netchaos.Pipe.Rules.{evaluate_rule}
use netchaos.Pipe.Ends.{try_write-SameEnds}
use netchaos.Pipe.Draws.{Outcome, draw_faults_lem, draw_discipline}
use netchaos.Pipe.Admission.{length-corrupt_unit}
use netchaos.Pipe.Determinism.{
  Run, done, taking, resting, Decided, cut_off, drawn_for, predicted, Quiet-Kept,
  try_write-Evaluated,
}

-- How many copies of a unit go out.
abbrev pub copies : Decided → ℕ
copies d = if d.partitioned then 0 else if d.dropped then 0 else if d.duplicated then 2 else 1

-- The sizes of the units taken in, and by how many bytes each made the queue longer.
unfoldable pub sizes : {us : List Shared} {p r : Pipe} → Run us p r → List ℕ
sizes (done p) = []
sizes (taking fuel n now k bytes e run) = length bytes ∷ sizes run
sizes (resting step run) = sizes run

unfoldable pub growths : {us : List Shared} {p r : Pipe} → Run us p r → List ℕ
growths (done p) = []
growths (taking fuel n now k bytes {p = p} {q} e run) = (q.buf_bytes - p.buf_bytes) ∷ growths run
growths (resting step run) = growths run

-- The bytes of the copies that go out.
unfoldable pub sent_sizes : List Decided → List ℕ → List ℕ
sent_sizes (d ∷ ds) (s ∷ ss) = (copies d * s) ∷ sent_sizes ds ss
sent_sizes (d ∷ ds) [] = []
sent_sizes [] ss = []

-- What becomes of the next unit.
abbrev next_unit : FaultPolicy → Shared → Stream → Stream → Decided
next_unit fp n loss duplicate =
    if fp.has_network && is_partitioned n fp.pair
    then cut_off
    else drawn_for (current fp n) loss duplicate

buf_bytes-arm : (now : ℕ) (p : Pipe) → (arm_latency_for_append now p).buf_bytes ≡ p.buf_bytes
unfolding arm_latency_for_append
buf_bytes-arm now p =
    if_cases (λ (x : Pipe). x.buf_bytes ≡ p.buf_bytes) (length p.pending == 1) _ _ (λ _. refl)
      (λ _. refl)

abbrev doubled : Bool → ℕ → ℕ
doubled duplicated size = if duplicated then size else 0

buf_bytes-deliver_now :
    (e : FaultEvent) (d : Bool) (bytes : List ℕ) (p : Pipe)
    → (deliver_now e d bytes p).buf_bytes ≡ p.buf_bytes + doubled d (length bytes)
unfolding deliver_now
buf_bytes-deliver_now e true bytes p = refl
buf_bytes-deliver_now e false bytes p = omega arith

buf_bytes-schedule :
    (now r : ℕ) (e : FaultEvent) (d : Bool) (bytes : List ℕ) (p : Pipe)
    → (schedule now r e d bytes p).buf_bytes ≡ p.buf_bytes + doubled d (length bytes)
unfolding schedule
buf_bytes-schedule now r e true bytes p = ap (λ n. n + length bytes) (buf_bytes-arm now _)
buf_bytes-schedule now r e false bytes p =
    let q : Pipe = trace_event e p in
    let unit : PendingUnit = record { bytes = bytes; release_at = r } in
    let armed = buf_bytes-arm now (record q { pending = q.pending ++ unit ∷ [] }) in
    omega (arith, armed)

buf_bytes-send_unit :
    (n : Shared) (fp : FaultPolicy) (now : ℕ) (d : Decision) (size : ℕ) (sent : Sent) (p : Pipe)
    → (send_unit (current fp n) now d size sent p).buf_bytes
      ≡ p.buf_bytes + doubled d.duplicated (length sent.bytes)
unfolding send_unit
buf_bytes-send_unit n fp now d size sent p =
    let cfg = current fp n in
    if_cases (λ (x : Pipe). x.buf_bytes ≡ p.buf_bytes + doubled d.duplicated (length sent.bytes))
      (not cfg.latency_enabled && not cfg.bandwidth_enabled) _ _
      (λ _. buf_bytes-deliver_now _ d.duplicated sent.bytes _)
      (λ _. buf_bytes-schedule now _ _ d.duplicated sent.bytes _)

abbrev Grown : ℕ → Decided → Pipe → Pipe → Type 0
Grown size d p q = q.buf_bytes + size ≡ p.buf_bytes + copies d * size

-- The bytes of a unit that is let in are counted ahead of its evaluation.
evaluate-Grown :
    (fuel : ℕ) (n : Shared) (now : ℕ) (fp : FaultPolicy) (bytes : List ℕ) (p q : Pipe)
    → length bytes ≤ p.buf_bytes
    → evaluate fuel n now fp bytes p ≡ some q
    → Grown (length bytes) (next_unit fp n p.loss p.duplicate) p q
unfolding discard
evaluate-Grown fuel n now fp bytes p q room =
    evaluate_rule (Grown (length bytes) (next_unit fp n p.loss p.duplicate) p) fuel n now bytes fp p
      q (λ c. ground arith)
      (λ d p1 c drawn x.
        let w = draw_faults_lem fuel (current fp n) p d p1 drawn in
        let same : p1.buf_bytes ≡ p.buf_bytes = ap (λ (y : Pipe). y.buf_bytes) w.pipe_is in
        let dropped = w.dropped_is in ground arith)
      (λ d p1 sent corrupt c drawn x found.
        let w = draw_faults_lem fuel (current fp n) p d p1 drawn in
        let same : p1.buf_bytes ≡ p.buf_bytes = ap (λ (y : Pipe). y.buf_bytes) w.pipe_is in
        let dropped = w.dropped_is in
        let twice = w.duplicated_is in
        let size = length-corrupt_unit fuel d.corrupted bytes p1.corrupt sent corrupt found in
        let grown =
          buf_bytes-send_unit n fp now d (length bytes) sent (record p1 { corrupt = corrupt }) in
        ground arith)

-- The prediction for a unit, and how it goes on.
predicted-next_unit :
    (fuel : ℕ) (n : Shared) (fp : FaultPolicy) (p q : Pipe) (us : List Shared)
    → Outcome fuel n fp p q
    → predicted fp (n ∷ us) p.loss p.duplicate
      ≡ next_unit fp n p.loss p.duplicate ∷ predicted fp us q.loss q.duplicate
unfolding predicted
predicted-next_unit fuel n fp p q us (inl (c, s)) =
    if_chosen _ c (cut_off ∷ predicted fp us p.loss p.duplicate) _ ∙ (λ i.
      sym (if_chosen _ c cut_off (drawn_for (current fp n) p.loss p.duplicate)) i
      ∷ predicted fp us (sym s.0 i) (sym s.2 i))
predicted-next_unit fuel n fp p q us (inr (c, s)) =
    if_skipped _ c (cut_off ∷ predicted fp us p.loss p.duplicate) _ ∙ (λ i.
      sym (if_skipped _ c cut_off (drawn_for (current fp n) p.loss p.duplicate)) i
      ∷ predicted fp us (sym s.loss_is i) (sym s.duplicate_is i))

-- Each unit that a direction takes in makes its queue longer by the unit's size, by twice its size,
-- or not at all, as the prediction has it.
pub growths-predicted :
    (fp : FaultPolicy) {us : List Shared} {p r : Pipe} (run : Run us p r)
    → p.deliver ≡ evaluator fp
    → growths run ≡ sent_sizes (predicted fp us p.loss p.duplicate) (sizes run)
unfolding predicted growths sizes sent_sizes
growths-predicted fp (done p) is_fp = refl
growths-predicted fp {p} (taking fuel n now k bytes {us} {q = q} {r} e run) is_fp =
    let before : Pipe = record p { buf_bytes = p.buf_bytes + length bytes } in
    let ev = try_write-Evaluated fuel n now fp bytes p (wrote k, q) is_fp e in
    let kept = try_write-SameEnds fuel n now bytes p (wrote k, q) e in
    let grown = evaluate-Grown fuel n now fp bytes before q (omega arith) ev in
    let by : q.buf_bytes - p.buf_bytes ≡ copies (next_unit fp n p.loss p.duplicate) * length bytes =
      omega (arith, grown) in
    (λ i. by i ∷ growths-predicted fp run (kept.2 ∙ is_fp) i)
    ∙ ap (λ ds. sent_sizes ds (length bytes ∷ sizes run))
        (sym (
          predicted-next_unit fuel n fp before q us
            (draw_discipline fuel n now fp bytes before q ev)))
growths-predicted fp {us} {p} (resting {q = q} step run) is_fp =
    let kept = Quiet-Kept step in
    growths-predicted fp run (kept.3 ∙ is_fp)
    ∙ (λ i. sent_sizes (predicted fp us (kept.0 i) (kept.1 i)) (sizes run))
