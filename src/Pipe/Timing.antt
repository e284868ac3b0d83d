-- ===== src/Pipe/Timing.antt =====
-- latency.go: the units that releaseDueLatency releases.
use netchaos.Base.{
  ℕ, ◌≤◌, ◌<◌, ◌≡◌, refl, sym, ap, ◌∙◌, true, false, List, [], ◌∷◌, ◌++◌, leb, arith, if_cases, map,
  leb→le, append-nil, subst,
}
use netchaos.Pipe.State.{Pipe, PendingUnit, is_nil, split_due, release_due_latency, move_due}
use netchaos.Pipe.Invariant.{unit_bytes}
use netchaos.Pipe.State.{head_timer, arm_latency_timer}
use netchaos.Base.{All}
use netchaos.Pipe.Invariant.{Inv, OrderedFrom}

-- One split of the pending units into those whose instant has come and the others.
pub record Released (now : ℕ) (p q : Pipe) : Type 0 where
  pub due : List PendingUnit
  pub pending_is : p.pending ≡ due ++ q.pending
  pub come : All (λ (u : PendingUnit). u.release_at ≤ now) due
  pub later : All (λ (u : PendingUnit). now < u.release_at) q.pending
  pub readable_is : q.readable ≡ p.readable ++ map unit_bytes due
  pub timer_is : q.timer ≡ head_timer now q.pending

abbrev Split : ℕ → List PendingUnit → List (List ℕ) × List PendingUnit → Type 0
Split now us r =
    (due : List PendingUnit) × (us ≡ due ++ r.1)
    × (r.0 ≡ map unit_bytes due)
    × All (λ (u : PendingUnit). u.release_at ≤ now) due
    × All (λ (u : PendingUnit). now < u.release_at) r.1

later-All :
    (now t : ℕ) (us : List PendingUnit)
    → now < t
    → OrderedFrom t us
    → All (λ (u : PendingUnit). now < u.release_at) us
later-All now t [] h o = tt
later-All now t (u ∷ us) h o = (omega arith, later-All now u.release_at us (omega arith) o.1)

split_due_lem :
    (now t : ℕ) (us : List PendingUnit) → OrderedFrom t us → Split now us (split_due now us)
unfolding split_due
split_due_lem now t [] o = ([], refl, refl, tt, tt)
split_due_lem now t (u ∷ us) o =
    let (due, e, b, c, l) = split_due_lem now u.release_at us o.1 in
    if_cases (Split now (u ∷ us)) (leb u.release_at now) _ _
      (λ h. (u ∷ due, ap (◌∷◌ u) e, ap (◌∷◌ u.bytes) b, (leb→le _ _ h, c), l))
      (λ h. ([], refl, refl, tt, (ground arith, later-All now u.release_at us (ground arith) o.1)))

nothing_due : (due : List PendingUnit) → is_nil (map unit_bytes due) ≡ true → due ≡ []
nothing_due [] h = refl
nothing_due (u ∷ due) h = cc

-- When the timer fires, exactly the units whose instant has come become readable, in order; every
-- other stays, later than now, and the timer is armed for the first of them. So no unit is
-- released early, and none is left behind.
pub release_due_latency_lem :
    (now : ℕ) (p : Pipe)
    → Inv p
    → p.read_closed ≡ false
    → Released now p (release_due_latency now p)
unfolding release_due_latency move_due
release_due_latency_lem now p v o =
    let (due, e, b, c, l) = split_due_lem now 0 p.pending v.ordered in
    if_cases (Released now p) p.read_closed _ _ (λ h. absurd (ground arith))
      (λ _.
        if_cases (λ (x : Pipe). Released now p (arm_latency_timer now x))
          (is_nil (split_due now p.pending).0) _ _
          (λ h.
            let empty : due ≡ [] =
              nothing_due due (subst (λ (x : List (List ℕ)). is_nil x ≡ true) b h) in
            let rest : p.pending ≡ (split_due now p.pending).1 =
              e ∙ ap (λ (x : List PendingUnit). x ++ (split_due now p.pending).1) empty in
            record {
              due = [];
              pending_is = refl;
              come = tt;
              later = subst (All (λ (u : PendingUnit). now < u.release_at)) (sym rest) l;
              readable_is = sym (append-nil p.readable);
              timer_is = refl;
            })
          (λ h. record {
            due = due;
            pending_is = e;
            come = c;
            later = l;
            readable_is = ap (◌++◌ p.readable) b;
            timer_is = refl;
          }))
