-- ===== src/Pipe/Admission.antt =====
-- The invariant through the evaluator, and through tryWrite.
use netchaos.Base.{
  ℕ, ◌≡◌, Bool, ◌&&◌, not, List, [], ◌∷◌, length, arith, if_cases, total-append, some, subst,
}
use netchaos.Faults.{Shared, FaultConfig, FaultPolicy}
use netchaos.Rand.{Stream}
use netchaos.Pipe.State.{Pipe, Deliver, pass_through, evaluator}
use netchaos.Pipe.Evaluate.{Decision, draw_faults, send_unit, Sent, corrupt_unit, evaluate, current}
use netchaos.Pipe.Ops.{WriteResult, run_deliver, admit, try_write}
use netchaos.Pipe.Invariant.{Inv}
use netchaos.Pipe.Queueing.{Charged, discard-Inv, deliver_now-Inv, schedule-Inv, length-flip_bit}
use netchaos.Pipe.Rules.{evaluate_rule, try_write_rule}

pub length-corrupt_unit :
    (fuel : ℕ) (c : Bool) (bytes : List ℕ) (s : Stream) (sent : Sent) (t : Stream)
    → corrupt_unit fuel c bytes s ≡ some (sent, t)
    → length sent.bytes ≡ length bytes
unfolding corrupt_unit
length-corrupt_unit fuel c bytes s sent t e = grind (arith, length-flip_bit)

send_unit-Inv :
    (cfg : FaultConfig) (now : ℕ) (d : Decision) (sent : Sent) (p : Pipe)
    → Charged (length sent.bytes) p
    → Inv (send_unit cfg now d (length sent.bytes) sent p)
unfolding send_unit
send_unit-Inv cfg now d sent p c =
    if_cases Inv (not cfg.latency_enabled && not cfg.bandwidth_enabled) _ _
      (λ _. deliver_now-Inv _ d.duplicated sent.bytes _ (record {
        charged = c.charged;
        ordered = c.ordered;
        armed = c.armed;
        open_end = c.open_end;
      }))
      (λ _. schedule-Inv now _ _ d.duplicated sent.bytes _ (record {
        charged = c.charged;
        ordered = c.ordered;
        armed = c.armed;
        open_end = c.open_end;
      }))

draw_faults-Charged :
    (fuel : ℕ) (cfg : FaultConfig) (n : ℕ) (p : Pipe) (d : Decision) (q : Pipe)
    → Charged n p
    → draw_faults fuel cfg p ≡ some (d, q)
    → Charged n q
unfolding draw_faults
draw_faults-Charged fuel cfg n p d q c e = ground arith

evaluate-Inv :
    (fuel : ℕ) (n : Shared) (now : ℕ) (fp : FaultPolicy) (bytes : List ℕ) (p q : Pipe)
    → Charged (length bytes) p
    → evaluate fuel n now fp bytes p ≡ some q
    → Inv q
evaluate-Inv fuel n now fp bytes p q c =
    evaluate_rule Inv fuel n now bytes fp p q (λ _. discard-Inv _ (length bytes) p c)
      (λ d p1 _ drawn _.
        discard-Inv _ (length bytes) p1
          (draw_faults-Charged fuel (current fp n) (length bytes) p d p1 c drawn))
      (λ d p1 sent corrupt _ drawn _ found.
        let c1 = draw_faults-Charged fuel (current fp n) (length bytes) p d p1 c drawn in
        let same = length-corrupt_unit fuel d.corrupted bytes p1.corrupt sent corrupt found in
        subst (λ k. Inv (send_unit (current fp n) now d k sent (record p1 { corrupt = corrupt })))
          same
          (send_unit-Inv (current fp n) now d sent _ (record {
            charged = omega (arith, c1.charged, same);
            ordered = c1.ordered;
            armed = c1.armed;
            open_end = c1.open_end;
          })))

run_deliver-Inv :
    (fuel : ℕ) (n : Shared) (now : ℕ) (dl : Deliver) (bytes : List ℕ) (p q : Pipe)
    → Charged (length bytes) p
    → run_deliver fuel n now dl bytes p ≡ some q
    → Inv q
unfolding run_deliver
run_deliver-Inv fuel n now pass_through bytes p q c e =
    ground (arith, total-append p.readable (bytes ∷ []))
run_deliver-Inv fuel n now (evaluator fp) bytes p q c e = evaluate-Inv fuel n now fp bytes p q c e

abbrev Good : WriteResult × Pipe → Type 0
Good r = Inv r.1

-- A write keeps the invariant, whatever the faults decide.
pub try_write-Inv :
    (fuel : ℕ) (n : Shared) (now : ℕ) (bytes : List ℕ) (p : Pipe) (r : WriteResult × Pipe)
    → Inv p
    → try_write fuel n now bytes p ≡ some r
    → Inv r.1
unfolding admit
try_write-Inv fuel n now bytes p r v =
    try_write_rule Good fuel n now bytes p r (λ _. v)
      (λ q c _ e.
        run_deliver-Inv fuel n now p.deliver bytes _ q
          (record {
            charged = omega (arith, v.accounted);
            ordered = v.ordered;
            armed = v.armed;
            open_end = ground arith;
          })
          e)
      (λ _ _. v)
