-- ===== src/Pipe/Ends.antt =====
-- pipe.go: which operations leave the ends of a pipe, and its deliver function, as they are.
use netchaos.Base.{
  ℕ, ◌≡◌, refl, ap, ◌∙◌, Bool, true, false, List, some, along_some, arith, if_cases, length, ◌&&◌,
  not, ◌==◌,
}
use netchaos.Faults.{Shared, FaultPolicy, FaultEvent, FaultConfig}
use netchaos.Pipe.State.{
  Pipe, Deliver, pass_through, evaluator, release_due_latency, arm_latency_for_append,
}
use netchaos.Pipe.Evaluate.{
  evaluate, current, discard, send_unit, schedule, deliver_now, Decision, Sent, lost_event,
  partitioned_event,
}
use netchaos.Pipe.Ops.{WriteResult, try_read, drain, at_end, try_write, run_deliver, admit}
use netchaos.Pipe.Rules.{evaluate_rule, try_write_rule}
use netchaos.Pipe.Draws.{draw_faults_lem}

abbrev pub SameEnds : Pipe → Pipe → Type 0
SameEnds p q = (q.closed ≡ p.closed) × (q.read_closed ≡ p.read_closed) × (q.deliver ≡ p.deliver)

pub try_read-SameEnds : (n : Shared) (room : ℕ) (p : Pipe) → SameEnds p (try_read n room p).1
unfolding try_read drain at_end
try_read-SameEnds n room p = ground arith

pub release_due_latency-SameEnds : (now : ℕ) (p : Pipe) → SameEnds p (release_due_latency now p)
unfolding release_due_latency
release_due_latency-SameEnds now p = ground arith

arm_ends : (now : ℕ) (p : Pipe) → SameEnds p (arm_latency_for_append now p)
unfolding arm_latency_for_append
arm_ends now p =
    if_cases (SameEnds p) (length p.pending == 1) _ _ (λ _. (refl, refl, refl))
      (λ _. (refl, refl, refl))

schedule_ends :
    (now r : ℕ) (e : FaultEvent) (d : Bool) (bytes : List ℕ) (p : Pipe)
    → SameEnds p (schedule now r e d bytes p)
unfolding schedule
schedule_ends now r e d bytes p =
    if_cases (SameEnds p) d _ _ (λ _. arm_ends now _) (λ _. arm_ends now _)

deliver_now_ends :
    (e : FaultEvent) (d : Bool) (bytes : List ℕ) (p : Pipe) → SameEnds p (deliver_now e d bytes p)
unfolding deliver_now
deliver_now_ends e true bytes p = (refl, refl, refl)
deliver_now_ends e false bytes p = (refl, refl, refl)

send_unit_ends :
    (cfg : FaultConfig) (now : ℕ) (d : Decision) (size : ℕ) (sent : Sent) (p : Pipe)
    → SameEnds p (send_unit cfg now d size sent p)
unfolding send_unit
send_unit_ends cfg now d size sent p =
    if_cases (SameEnds p) (not cfg.latency_enabled && not cfg.bandwidth_enabled) _ _
      (λ _. deliver_now_ends _ d.duplicated sent.bytes _)
      (λ _. schedule_ends now _ _ d.duplicated sent.bytes _)

discard_ends : (e : FaultEvent) (size : ℕ) (p : Pipe) → SameEnds p (discard e size p)
unfolding discard
discard_ends e size p = (refl, refl, refl)

evaluate_ends :
    (fuel : ℕ) (n : Shared) (now : ℕ) (fp : FaultPolicy) (bytes : List ℕ) (p q : Pipe)
    → evaluate fuel n now fp bytes p ≡ some q
    → SameEnds p q
evaluate_ends fuel n now fp bytes p q =
    evaluate_rule (SameEnds p) fuel n now bytes fp p q
      (λ _. discard_ends partitioned_event (length bytes) p)
      (λ d p1 _ drawn _.
        let g = discard_ends (lost_event (length bytes) d) (length bytes) p1 in
        let k = (draw_faults_lem fuel (current fp n) p d p1 drawn).pipe_is in
        (
          g.0 ∙ ap (λ (x : Pipe). x.closed) k,
          g.1 ∙ ap (λ (x : Pipe). x.read_closed) k,
          g.2 ∙ ap (λ (x : Pipe). x.deliver) k,
        ))
      (λ d p1 sent corrupt _ drawn _ _.
        let g =
          send_unit_ends (current fp n) now d (length bytes) sent
            (record p1 { corrupt = corrupt }) in
        let k = (draw_faults_lem fuel (current fp n) p d p1 drawn).pipe_is in
        (
          g.0 ∙ ap (λ (x : Pipe). x.closed) k,
          g.1 ∙ ap (λ (x : Pipe). x.read_closed) k,
          g.2 ∙ ap (λ (x : Pipe). x.deliver) k,
        ))

deliver_ends :
    (fuel : ℕ) (n : Shared) (now : ℕ) (dl : Deliver) (bytes : List ℕ) (p q : Pipe)
    → run_deliver fuel n now dl bytes p ≡ some q
    → SameEnds p q
unfolding run_deliver
deliver_ends fuel n now pass_through bytes p q e = along_some (SameEnds p) e (refl, refl, refl)
deliver_ends fuel n now (evaluator fp) bytes p q e = evaluate_ends fuel n now fp bytes p q e

abbrev ResultEnds : Pipe → WriteResult × Pipe → Type 0
ResultEnds p r = SameEnds p r.1

pub try_write-SameEnds :
    (fuel : ℕ) (n : Shared) (now : ℕ) (bytes : List ℕ) (p : Pipe) (r : WriteResult × Pipe)
    → try_write fuel n now bytes p ≡ some r
    → SameEnds p r.1
unfolding admit
try_write-SameEnds fuel n now bytes p r =
    try_write_rule (ResultEnds p) fuel n now bytes p r (λ _. (refl, refl, refl))
      (λ q _ _ e. deliver_ends fuel n now p.deliver bytes _ q e) (λ _ _. (refl, refl, refl))
