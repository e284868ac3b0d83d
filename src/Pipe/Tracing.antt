-- ===== src/Pipe/Tracing.antt =====
-- faults.go and trace.go: the trace of a direction.
use netchaos.Base.{
  ℕ, ◌≡◌, refl, sym, ap, ◌∙◌, Bool, true, false, ◌&&◌, not, List, [], ◌∷◌, ◌++◌, ◌==◌, length,
  arith, if_cases, inl, inr, ◌⊎◌, some,
}
use netchaos.Faults.{Shared, FaultConfig, FaultEvent, FaultPolicy, is_partitioned}
use netchaos.Rand.{Stream}
use netchaos.Pipe.State.{Pipe, arm_latency_for_append}
use netchaos.Pipe.Evaluate.{
  Decision, discard, deliver_now, schedule, draw_latency, send_unit, Sent, evaluate, current,
  partitioned_event,
}
use netchaos.Pipe.Rules.{evaluate_rule}
use netchaos.Pipe.Draws.{Drawn, draw_faults_lem}
use netchaos.Pipe.State.{add_event}

-- The event of a unit, against the draws made for it.
abbrev pub EventSpec : ℕ → Shared → FaultPolicy → List ℕ → Pipe → FaultEvent → Type 0
EventSpec fuel n fp bytes p e =
    (((fp.has_network && is_partitioned n fp.pair) ≡ true) × (e ≡ partitioned_event))
    ⊎ (((fp.has_network && is_partitioned n fp.pair) ≡ false)
        × (d : Decision) × (p1 : Pipe) × Drawn fuel (current fp n) p d p1
        × (e.partitioned ≡ false)
        × (e.dropped ≡ d.dropped)
        × (e.duplicated ≡ d.duplicated)
        × (e.corrupted ≡ d.corrupted)
        × (e.drawn ≡ d.drawn)
        × (e.size ≡ length bytes))

abbrev pub Traces : ℕ → Shared → FaultPolicy → List ℕ → Pipe → Pipe → Type 0
Traces fuel n fp bytes p q =
    (e : FaultEvent) × EventSpec fuel n fp bytes p e × (q.trace ≡ add_event e p.trace)

trace-discard :
    (e : FaultEvent) (size : ℕ) (p : Pipe) → (discard e size p).trace ≡ add_event e p.trace
unfolding discard
trace-discard e size p = refl

trace-arm : (now : ℕ) (p : Pipe) → (arm_latency_for_append now p).trace ≡ p.trace
unfolding arm_latency_for_append
trace-arm now p =
    if_cases (λ (x : Pipe). x.trace ≡ p.trace) (length p.pending == 1) _ _ (λ _. refl) (λ _. refl)

trace-schedule :
    (now r : ℕ) (e : FaultEvent) (d : Bool) (bytes : List ℕ) (p : Pipe)
    → (schedule now r e d bytes p).trace ≡ add_event e p.trace
unfolding schedule
trace-schedule now r e d bytes p =
    if_cases (λ (x : Pipe). x.trace ≡ add_event e p.trace) d _ _ (λ _. trace-arm now _)
      (λ _. trace-arm now _)

trace-deliver_now :
    (e : FaultEvent) (d : Bool) (bytes : List ℕ) (p : Pipe)
    → (deliver_now e d bytes p).trace ≡ add_event e p.trace
unfolding deliver_now
trace-deliver_now e true bytes p = refl
trace-deliver_now e false bytes p = refl

no_latency :
    (fuel : ℕ) (cfg : FaultConfig) (s : Stream) (d : ℕ) (t : Stream)
    → cfg.latency_enabled ≡ false
    → draw_latency fuel cfg s ≡ some (d, t)
    → 0 ≡ d
unfolding draw_latency
no_latency fuel cfg s d t h e = ground arith

send_unit-Traces :
    (fuel : ℕ) (n : Shared) (now : ℕ) (fp : FaultPolicy) (bytes : List ℕ) (p : Pipe) (d : Decision)
    (p1 : Pipe) (sent : Sent) (corrupt : Stream)
    → (fp.has_network && is_partitioned n fp.pair) ≡ false
    → Drawn fuel (current fp n) p d p1
    → d.dropped ≡ false
    → Traces fuel n fp bytes p
        (send_unit (current fp n) now d (length bytes) sent (record p1 { corrupt = corrupt }))
unfolding send_unit
send_unit-Traces fuel n now fp bytes p d p1 sent corrupt c w x =
    let cfg = current fp n in
    if_cases (Traces fuel n fp bytes p) (not cfg.latency_enabled && not cfg.bandwidth_enabled) _ _
      (λ h. (
        _,
        inr (
          c,
          d,
          p1,
          w,
          refl,
          sym x,
          refl,
          refl,
          no_latency fuel cfg p.latency d.drawn p1.latency (ground arith) w.latency_drawn,
          refl,
        ),
        trace-deliver_now _ d.duplicated sent.bytes _
            ∙ ap (add_event _) (ap (λ (y : Pipe). y.trace) w.pipe_is),
      ))
      (λ h. (
        _,
        inr (c, d, p1, w, refl, sym x, refl, refl, refl, refl),
        trace-schedule now _ _ d.duplicated sent.bytes _
            ∙ ap (add_event _) (ap (λ (y : Pipe). y.trace) w.pipe_is),
      ))

evaluate-Traces :
    (fuel : ℕ) (n : Shared) (now : ℕ) (fp : FaultPolicy) (bytes : List ℕ) (p q : Pipe)
    → evaluate fuel n now fp bytes p ≡ some q
    → Traces fuel n fp bytes p q
evaluate-Traces fuel n now fp bytes p q =
    evaluate_rule (Traces fuel n fp bytes p) fuel n now bytes fp p q
      (λ c. (_, inl (c, refl), trace-discard partitioned_event (length bytes) p))
      (λ d p1 c drawn x.
        let w = draw_faults_lem fuel (current fp n) p d p1 drawn in
        (
          _,
          inr (c, d, p1, w, refl, sym x, refl, refl, refl, refl),
          trace-discard _ (length bytes) p1
              ∙ ap (add_event _) (ap (λ (y : Pipe). y.trace) w.pipe_is),
        ))
      (λ d p1 sent corrupt c drawn x _.
        send_unit-Traces fuel n now fp bytes p d p1 sent corrupt c
          (draw_faults_lem fuel (current fp n) p d p1 drawn) x)

-- A unit leaves exactly one event behind those recorded before it, with the next sequence number.
-- On a partitioned pair every other field is zero; else it reports the decisions drawn for the unit,
-- those of a dropped unit too, and the unit's size.
pub one_event :
    (fuel : ℕ) (n : Shared) (now : ℕ) (fp : FaultPolicy) (bytes : List ℕ) (p q : Pipe)
    (events : List FaultEvent)
    → p.trace ≡ some events
    → evaluate fuel n now fp bytes p ≡ some q
    → (e : FaultEvent) × EventSpec fuel n fp bytes p e
      × (q.trace ≡ some (events ++ record e { seq = length events } ∷ []))
unfolding add_event
one_event fuel n now fp bytes p q events t e =
    let (ev, spec, is) = evaluate-Traces fuel n now fp bytes p q e in
    (ev, spec, is ∙ ap (add_event ev) t)
