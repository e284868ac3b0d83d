-- ===== src/Pipe/Draws.antt =====
-- faults.go: the draw discipline, that is which streams a unit draws from.
use netchaos.Base.{
  ℕ, ◌≡◌, refl, sym, ap, ◌∙◌, Bool, true, false, ◌&&◌, ◌⊎◌, inl, inr, not, ◌==◌, List,
  if◌then◌else◌, length, arith, if_cases, some, >>=-eq-some, along_some,
}
use netchaos.Base.Float.{Float64}
use netchaos.Faults.{Shared, FaultConfig, FaultEvent, FaultPolicy, is_partitioned}
use netchaos.Rand.{Stream, next, bernoulli}
use netchaos.Pipe.State.{Pipe, arm_latency_for_append}
use netchaos.Pipe.Evaluate.{
  Decision, Sent, current, trial, draw_latency, draw_faults, discard, send_unit, deliver_now,
  schedule, evaluate,
}
use netchaos.Pipe.Rules.{evaluate_rule}

-- One value further, if the fault is enabled.
abbrev pub advance : Bool → Stream → Stream
advance enabled s = if enabled then (next s).1 else s

trial_stream :
    (enabled : Bool) (rate : Float64) (s : Stream) → (trial enabled rate s).1 ≡ advance enabled s
unfolding trial bernoulli
trial_stream enabled rate s = ground arith

-- What draw_faults did: the decision of each stream, and the streams after it.
pub record Drawn (fuel : ℕ) (cfg : FaultConfig) (p : Pipe) (d : Decision) (q : Pipe) : Type 0 where
  pub latency_drawn : draw_latency fuel cfg p.latency ≡ some (d.drawn, q.latency)
  pub dropped_is : d.dropped ≡ (trial cfg.loss_enabled cfg.loss_rate p.loss).0
  pub duplicated_is : d.duplicated ≡ (trial cfg.duplicate_enabled cfg.duplicate_rate p.duplicate).0
  pub corrupted_is : d.corrupted ≡ (trial cfg.corrupt_enabled cfg.corrupt_rate p.corrupt).0
  pub pipe_is : q ≡ record p {
    loss = advance cfg.loss_enabled p.loss;
    latency = q.latency;
    duplicate = advance cfg.duplicate_enabled p.duplicate;
    corrupt = advance cfg.corrupt_enabled p.corrupt;
  }

pub draw_faults_lem :
    (fuel : ℕ) (cfg : FaultConfig) (p : Pipe) (d : Decision) (q : Pipe)
    → draw_faults fuel cfg p ≡ some (d, q)
    → Drawn fuel cfg p d q
unfolding draw_faults
draw_faults_lem fuel cfg p d q e =
    let ((drawn, latency), found, result) = >>=-eq-some (draw_latency fuel cfg p.latency) _ e in
    along_some (λ (r : Decision × Pipe). Drawn fuel cfg p r.0 r.1) result
      (record {
        latency_drawn = found;
        dropped_is = refl;
        duplicated_is = refl;
        corrupted_is = refl;
        pipe_is = rw (
          trial_stream cfg.loss_enabled cfg.loss_rate p.loss,
          trial_stream cfg.duplicate_enabled cfg.duplicate_rate p.duplicate,
          trial_stream cfg.corrupt_enabled cfg.corrupt_rate p.corrupt,
        );
      })

-- The streams of a pipe after a unit, against those before it.
pub record Disciplined (fuel : ℕ) (cfg : FaultConfig) (p q : Pipe) : Type 0 where
  pub loss_is : q.loss ≡ advance cfg.loss_enabled p.loss
  pub duplicate_is : q.duplicate ≡ advance cfg.duplicate_enabled p.duplicate
  pub latency_is : (drawn : ℕ) × (draw_latency fuel cfg p.latency ≡ some (drawn, q.latency))

-- The four streams as they are.
abbrev pub SameStreams : Pipe → Pipe → Type 0
SameStreams p q =
    (q.loss ≡ p.loss)
    × (q.latency ≡ p.latency)
    × (q.duplicate ≡ p.duplicate)
    × (q.corrupt ≡ p.corrupt)

discard_streams : (e : FaultEvent) (size : ℕ) (p : Pipe) → SameStreams p (discard e size p)
unfolding discard
discard_streams e size p = (refl, refl, refl, refl)

arm_streams : (now : ℕ) (p : Pipe) → SameStreams p (arm_latency_for_append now p)
unfolding arm_latency_for_append
arm_streams now p =
    if_cases (SameStreams p) (length p.pending == 1) _ _ (λ _. (refl, refl, refl, refl))
      (λ _. (refl, refl, refl, refl))

schedule_streams :
    (now r : ℕ) (e : FaultEvent) (d : Bool) (bytes : List ℕ) (p : Pipe)
    → SameStreams p (schedule now r e d bytes p)
unfolding schedule
schedule_streams now r e d bytes p =
    if_cases (SameStreams p) d _ _ (λ _. arm_streams now _) (λ _. arm_streams now _)

deliver_now_streams :
    (e : FaultEvent) (d : Bool) (bytes : List ℕ) (p : Pipe)
    → SameStreams p (deliver_now e d bytes p)
unfolding deliver_now
deliver_now_streams e true bytes p = (refl, refl, refl, refl)
deliver_now_streams e false bytes p = (refl, refl, refl, refl)

pub send_unit_streams :
    (cfg : FaultConfig) (now : ℕ) (d : Decision) (size : ℕ) (sent : Sent) (p : Pipe)
    → SameStreams p (send_unit cfg now d size sent p)
unfolding send_unit
send_unit_streams cfg now d size sent p =
    if_cases (SameStreams p) (not cfg.latency_enabled && not cfg.bandwidth_enabled) _ _
      (λ _. deliver_now_streams _ d.duplicated sent.bytes _)
      (λ _. schedule_streams now _ _ d.duplicated sent.bytes _)

disciplined :
    (fuel : ℕ) (cfg : FaultConfig) (p : Pipe) (d : Decision) (p1 p2 q : Pipe)
    → Drawn fuel cfg p d p1
    → (p2.loss ≡ p1.loss) × (p2.latency ≡ p1.latency) × (p2.duplicate ≡ p1.duplicate)
    → SameStreams p2 q
    → Disciplined fuel cfg p q
disciplined fuel cfg p d p1 p2 q w m s = record {
  loss_is = s.0 ∙ m.0 ∙ ap (λ (x : Pipe). x.loss) w.pipe_is;
  duplicate_is = s.2 ∙ m.2 ∙ ap (λ (x : Pipe). x.duplicate) w.pipe_is;
  latency_is = (d.drawn, w.latency_drawn ∙ ap (λ l. some (d.drawn, l)) (sym (s.1 ∙ m.1)));
}

abbrev pub Outcome : ℕ → Shared → FaultPolicy → Pipe → Pipe → Type 0
Outcome fuel n fp p q =
    (((fp.has_network && is_partitioned n fp.pair) ≡ true) × SameStreams p q)
    ⊎ (((fp.has_network && is_partitioned n fp.pair) ≡ false) × Disciplined fuel (current fp n) p q)

-- A unit on a partitioned pair draws nothing. Every other unit, whether it is then dropped,
-- corrupted or delivered, takes exactly one value from the loss stream and one from the duplication
-- stream if that fault is enabled and none if not, and makes the latency draw that the latency
-- setting and the latency stream alone determine: no fault shifts another's sequence.
pub draw_discipline :
    (fuel : ℕ) (n : Shared) (now : ℕ) (fp : FaultPolicy) (bytes : List ℕ) (p q : Pipe)
    → evaluate fuel n now fp bytes p ≡ some q
    → Outcome fuel n fp p q
draw_discipline fuel n now fp bytes p q =
    evaluate_rule (Outcome fuel n fp p) fuel n now bytes fp p q
      (λ c. inl (c, discard_streams _ (length bytes) p))
      (λ d p1 c drawn _. inr (
        c,
        disciplined fuel (current fp n) p d p1 p1 _
            (draw_faults_lem fuel (current fp n) p d p1 drawn) (refl, refl, refl)
            (discard_streams _ (length bytes) p1),
      ))
      (λ d p1 sent corrupt c drawn _ _. inr (
        c,
        disciplined fuel (current fp n) p d p1 (record p1 { corrupt = corrupt }) _
            (draw_faults_lem fuel (current fp n) p d p1 drawn) (refl, refl, refl)
            (send_unit_streams (current fp n) now d (length bytes) sent _),
      ))
