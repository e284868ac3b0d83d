-- ===== src/Pipe/Ending.antt =====
-- pipe.go and faults.go: the fuel of a write.
use netchaos.Base.{
  ℕ, ◌+◌, ◌≤◌, ◌<◌, ◌≡◌, refl, sym, ap, ◌∙◌, subst, Bool, true, false, ◌&&◌, ◌||◌, Option, some,
  List, length, ◌>>=◌, arith, ltb, leb, ◌==◌, if_cases,
}
use netchaos.Rand.{Stream, word, next}
use netchaos.Rand.Uniform.{max_duration}
use netchaos.Rand.Ending.{Rich, Gives, uniform_duration-Gives, corruption_site-Gives}
use netchaos.Faults.{Shared, FaultConfig, FaultPolicy, is_partitioned}
use netchaos.Pipe.State.{Pipe, Deliver, pass_through, evaluator}
use netchaos.Pipe.Evaluate.{
  Decision, Sent, current, draw_latency, draw_faults, flip_drawn, corrupt_unit, deliver_unit,
  after_draws, evaluate,
}
use netchaos.Pipe.Ops.{WriteResult, run_deliver, admit, try_write}
use netchaos.Pipe.Draws.{draw_faults_lem, advance}

-- The bounds of the latency, as validation leaves them.
abbrev pub Valid : FaultConfig → Type 0
Valid cfg = (cfg.latency_min ≤ cfg.latency_max) × (cfg.latency_max ≤ max_duration)

abbrev pub ValidFor : Shared → Deliver → Type 0
ValidFor n pass_through = Unit {0}
ValidFor n (evaluator fp) = Valid (current fp n)

draw_latency-Gives :
    (fuel : ℕ) (cfg : FaultConfig) (s : Stream)
    → Valid cfg
    → Rich fuel s.draws
    → Gives (draw_latency fuel cfg s)
unfolding draw_latency
draw_latency-Gives fuel cfg s v r =
    if_cases Gives cfg.latency_enabled _ _
      (λ _. uniform_duration-Gives fuel cfg.latency_min cfg.latency_max s v.0 v.1 r)
      (λ _. (0, s, refl))

draw_faults-Gives :
    (fuel : ℕ) (cfg : FaultConfig) (p : Pipe)
    → Valid cfg
    → Rich fuel p.latency.draws
    → (d : Decision) × (q : Pipe) × (draw_faults fuel cfg p ≡ some (d, q))
unfolding draw_faults
draw_faults-Gives fuel cfg p v r =
    let (d, t, e) = draw_latency-Gives fuel cfg p.latency v r in rw e (_, _, refl)

advance-draws : (b : Bool) (s : Stream) → (advance b s).draws ≡ s.draws
unfolding next
advance-draws true s = refl
advance-draws false s = refl

corrupt_unit-Gives :
    (fuel : ℕ) (b : Bool) (bytes : List ℕ) (s : Stream)
    → length bytes < word
    → Rich fuel s.draws
    → (x : Sent) × (t : Stream) × (corrupt_unit fuel b bytes s ≡ some (x, t))
unfolding corrupt_unit flip_drawn
corrupt_unit-Gives fuel b bytes s h r =
    if_cases (λ (o : Option (Sent × Stream)). (x : Sent) × (t : Stream) × (o ≡ some (x, t)))
      (b && ltb 0 (length bytes)) _ _
      (λ e.
        let (i, j, t, f) = corruption_site-Gives fuel (length bytes) s (ground arith) h r in
        rw f (_, _, refl))
      (λ _. (_, _, refl))

abbrev Ends : Option Pipe → Type 0
Ends o = (q : Pipe) × (o ≡ some q)

after_draws-Ends :
    (fuel : ℕ) (cfg : FaultConfig) (now : ℕ) (bytes : List ℕ) (d : Decision) (p : Pipe)
    → length bytes < word
    → Rich fuel p.corrupt.draws
    → Ends (after_draws fuel cfg now bytes d p)
unfolding after_draws deliver_unit
after_draws-Ends fuel cfg now bytes d p h r =
    if_cases Ends d.dropped _ _ (λ _. (_, refl))
      (λ _.
        let (x, t, e) = corrupt_unit-Gives fuel d.corrupted bytes p.corrupt h r in rw e (_, refl))

evaluate-Ends :
    (fuel : ℕ) (n : Shared) (now : ℕ) (fp : FaultPolicy) (bytes : List ℕ) (p : Pipe)
    → Valid (current fp n)
    → length bytes < word
    → Rich fuel p.latency.draws
    → Rich fuel p.corrupt.draws
    → Ends (evaluate fuel n now fp bytes p)
unfolding evaluate
evaluate-Ends fuel n now fp bytes p v h l c =
    if_cases Ends (fp.has_network && is_partitioned n fp.pair) _ _ (λ _. (_, refl))
      (λ _.
        let cfg = current fp n in
        let (d, p1, e) = draw_faults-Gives fuel cfg p v l in
        let same : p1.corrupt.draws ≡ p.corrupt.draws =
          ap (λ (x : Pipe). x.corrupt.draws) (draw_faults_lem fuel cfg p d p1 e).pipe_is
          ∙ advance-draws cfg.corrupt_enabled p.corrupt in
        let (q, f) = after_draws-Ends fuel cfg now bytes d p1 h (subst (Rich fuel) (sym same) c) in
        (
          q,
          ap (λ (o : Option (Decision × Pipe)). o >>= λ r. after_draws fuel cfg now bytes r.0 r.1) e
              ∙ f,
        ))

run_deliver-Ends :
    (fuel : ℕ) (n : Shared) (now : ℕ) (dl : Deliver) (bytes : List ℕ) (p : Pipe)
    → ValidFor n dl
    → length bytes < word
    → Rich fuel p.latency.draws
    → Rich fuel p.corrupt.draws
    → Ends (run_deliver fuel n now dl bytes p)
unfolding run_deliver
run_deliver-Ends fuel n now pass_through bytes p v h l c = (_, refl)
run_deliver-Ends fuel n now (evaluator fp) bytes p v h l c =
    evaluate-Ends fuel n now fp bytes p v h l c

-- tryWrite always answers: with valid latency bounds, a slice shorter than 2 ^ 64 bytes, and fuel
-- for the rejected draws in a row, its result is there. (A stream on which the rejection loop runs
-- on for ever has none, in the code either.)
pub try_write_total :
    (fuel : ℕ) (n : Shared) (now : ℕ) (bytes : List ℕ) (p : Pipe)
    → ValidFor n p.deliver
    → length bytes < word
    → Rich fuel p.latency.draws
    → Rich fuel p.corrupt.draws
    → (r : WriteResult × Pipe) × (try_write fuel n now bytes p ≡ some r)
unfolding try_write admit
try_write_total fuel n now bytes p v h l c =
    if_cases Answers (p.closed || p.read_closed) _ _ (λ _. (_, refl))
      (λ _.
        if_cases Answers (p.buf_bytes == 0 || leb (p.buf_bytes + length bytes) p.bound) _ _
          (λ _.
            let (q, e) =
              run_deliver-Ends fuel n now p.deliver bytes
                (record p { buf_bytes = p.buf_bytes + length bytes }) v h l c in
            rw e (_, refl))
          (λ _. (_, refl)))
  where
    Answers : Option (WriteResult × Pipe) → Type 0
    Answers o = (r : WriteResult × Pipe) × (o ≡ some r)
