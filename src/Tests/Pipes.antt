-- ===== src/Tests/Pipes.antt =====
-- The properties of pipes at concrete inputs.
use native.Mathlib.Nat.{mod-le}
use netchaos.Base.{ap, ◌>>=◌, ◌-◌, ◌≡◌, refl, Option, some, [], ◌∷◌, ◌++◌, arith, inl, length}
use netchaos.Base.Float.{lt_float, le_float, ulp53}
use netchaos.Rand.{
  word, mul_lo, mul_hi, threshold, bernoulli, next, bounded_uint64, uniform_duration,
}
use netchaos.Rand.Bounded.{IsWords}
use netchaos.Rand.Ending.{Rich}
use netchaos.Faults.{FaultEvent, is_partitioned, record_event}
use netchaos.Peers.{has_pair}
use netchaos.Pipe.State.{
  Pipe, add_event, trace_event, fire_at, head_timer, arm_latency_timer, arm_latency_for_append,
  release_due_latency,
}
use netchaos.Pipe.Evaluate.{
  current, trial, draw_latency, draw_faults, transmit, clamp_release, schedule, corrupt_unit,
  send_unit, deliver_unit, after_draws, evaluate, install_fault_policy,
}
use netchaos.Pipe.Ops.{WriteResult, wrote, new_pipe, try_read, run_deliver, admit, try_write}
use netchaos.Pipe.Reading.{ReadSpec, try_read_lem}
use netchaos.Pipe.Writing.{WriteSpec, try_write_lem}
use netchaos.Pipe.Invariant.{Inv}
use netchaos.Pipe.Steps.{writes, releases, Reach, here, then_step, new_pipe-Reach-Inv}
use netchaos.Pipe.Wakeups.{Wakes, Step-Wakes}
use netchaos.Pipe.Draws.{Outcome, draw_discipline}
use netchaos.Pipe.Tracing.{EventSpec, one_event}
use netchaos.Pipe.Timing.{Released, release_due_latency_lem}
use netchaos.Pipe.Ending.{try_write_total}
use netchaos.Tests.{top, pair, shared, policy, start, loaded, ready}

top-IsWords : IsWords top
top-IsWords i = omega arith

evaluated : evaluate 1 shared 0 policy (7 ∷ 8 ∷ []) (record start { buf_bytes = 2 }) ≡ some loaded
unfolding evaluate is_partitioned has_pair current draw_faults trial bernoulli next le_float
    lt_float draw_latency uniform_duration bounded_uint64 mul_hi mul_lo after_draws deliver_unit
    corrupt_unit send_unit transmit clamp_release schedule arm_latency_for_append trace_event
    add_event record_event arm_latency_timer head_timer fire_at ulp53
evaluated = refl

written : try_write 1 shared 0 (7 ∷ 8 ∷ []) start ≡ some (wrote 2, loaded)
unfolding try_write admit run_deliver
written = ap (λ (o : Option Pipe). o >>= λ q. some (wrote 2, q)) evaluated

start-Inv : Inv start
start-Inv = record { accounted = refl; ordered = tt; armed = tt; discarded = λ e. cc }

loaded-Inv : Inv loaded
loaded-Inv = record {
  accounted = refl;
  ordered = (omega arith, tt);
  armed = tt;
  discarded = λ e. cc;
}

new_is : install_fault_policy policy (new_pipe 8 pair top top top top (some [])) ≡ start
unfolding install_fault_policy new_pipe
new_is = refl

reached :
    Reach
      (install_fault_policy policy (new_pipe 8 pair top top top top (some [])))
      (release_due_latency 2 loaded)
unfolding install_fault_policy new_pipe
reached =
    then_step (then_step here (writes 1 shared 0 (7 ∷ 8 ∷ []) start (wrote 2, loaded) written))
      (releases 2 loaded)

new_pipe-Reach-Inv_example : Inv (release_due_latency 2 loaded)
new_pipe-Reach-Inv_example =
    new_pipe-Reach-Inv 8 pair top top top top (some []) policy (release_due_latency 2 loaded)
      reached

try_write_lem_example : WriteSpec shared (7 ∷ 8 ∷ []) start (wrote 2, loaded)
try_write_lem_example =
    try_write_lem 1 shared 0 (7 ∷ 8 ∷ []) start (wrote 2, loaded) top-IsWords (inl refl) written

try_read_lem_example : ReadSpec shared 1 ready (try_read shared 1 ready)
try_read_lem_example = try_read_lem shared 1 ready

draw_discipline_example : Outcome 1 shared policy (record start { buf_bytes = 2 }) loaded
draw_discipline_example =
    draw_discipline 1 shared 0 policy (7 ∷ 8 ∷ []) (record start { buf_bytes = 2 }) loaded evaluated

Step-Wakes_example : Wakes start loaded
Step-Wakes_example = Step-Wakes (writes 1 shared 0 (7 ∷ 8 ∷ []) start (wrote 2, loaded) written)

one_event_example :
    (e : FaultEvent) × EventSpec 1 shared policy (7 ∷ 8 ∷ []) (record start { buf_bytes = 2 }) e
    × (loaded.trace ≡ some ([] ++ record e { seq = length {A = FaultEvent} [] } ∷ []))
one_event_example =
    one_event 1 shared 0 policy (7 ∷ 8 ∷ []) (record start { buf_bytes = 2 }) loaded [] refl
      evaluated

release_due_latency_lem_example : Released 2 loaded (release_due_latency 2 loaded)
release_due_latency_lem_example = release_due_latency_lem 2 loaded loaded-Inv refl

-- The value 2 ^ 64 - 1 is kept for every bound.
pub top-Rich : Rich 1 (λ i. word - 1)
unfolding threshold mul_lo
top-Rich n i p h = (0, omega arith, omega (arith, mod-le (word - n) n))

try_write_total_example :
    (r : WriteResult × Pipe) × (try_write 1 shared 0 (7 ∷ 8 ∷ []) start ≡ some r)
unfolding current
try_write_total_example =
    try_write_total 1 shared 0 (7 ∷ 8 ∷ []) start (omega arith, omega arith) (omega arith) top-Rich
      top-Rich
