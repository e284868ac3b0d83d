-- ===== src/Pipe/Stream.antt =====
-- pipe.go and faults.go: a pipe as a byte stream.
use mathlib.Core.List.{map-append}
use netchaos.Base.{
  ℕ, ◌<◌, ◌≡◌, refl, sym, ap, ◌∙◌, Bool, true, false, ◌&&◌, ◌||◌, not, List, [], ◌∷◌, ◌++◌, ltb,
  leb, ◌==◌, if◌then◌else◌, length, flatten, arith, if_cases, inl, inr, map, ◌⊎◌, some, >>=-eq-some,
  append_assoc, append-nil, subst, flatten-append,
}
use netchaos.Faults.{Shared, FaultConfig, FaultEvent, FaultPolicy}
use netchaos.Rand.{Stream, next, corruption_site}
use netchaos.Rand.Bounded.{IsWords}
use netchaos.Rand.Uniform.{corruption_site_range}
use netchaos.Pipe.State.{
  Pipe, PendingUnit, Deliver, pass_through, evaluator, trace_event, is_nil, split_due,
  release_due_latency, move_due, arm_latency_for_append,
}
use netchaos.Pipe.Evaluate.{
  Decision, discard, deliver_now, schedule, send_unit, Sent, corrupt_unit, flip_bit, evaluate,
  current, partitioned_event,
}
use netchaos.Pipe.Invariant.{unit_bytes}
use netchaos.Pipe.Rules.{evaluate_rule}
use netchaos.Pipe.Draws.{Drawn, draw_faults_lem, advance}

-- The bytes in the pipe, oldest first: what is readable, then what is held back.
abbrev pub contents : Pipe → List ℕ
contents p = flatten p.readable ++ flatten (map unit_bytes p.pending)

flatten-split_due :
    (now : ℕ) (us : List PendingUnit)
    → flatten (split_due now us).0 ++ flatten (map unit_bytes (split_due now us).1)
      ≡ flatten (map unit_bytes us)
unfolding split_due
flatten-split_due now [] = refl
flatten-split_due now (u ∷ us) =
    if_cases
      (λ (r : List (List ℕ) × List PendingUnit).
        flatten r.0 ++ flatten (map unit_bytes r.1) ≡ u.bytes ++ flatten (map unit_bytes us))
      (leb u.release_at now) _ _
      (λ _. append_assoc u.bytes _ _ ∙ ap (◌++◌ u.bytes) (flatten-split_due now us)) (λ _. refl)

contents-move_due :
    (due : List (List ℕ)) (rest : List PendingUnit) (p : Pipe)
    → flatten due ++ flatten (map unit_bytes rest) ≡ flatten (map unit_bytes p.pending)
    → contents (move_due due rest p) ≡ contents p
unfolding move_due
contents-move_due due rest p e =
    if_cases (λ q. contents q ≡ contents p) (is_nil due) _ _ (λ _. refl)
      (λ _.
        ap (λ x. x ++ flatten (map unit_bytes rest)) (flatten-append p.readable due)
        ∙ append_assoc (flatten p.readable) (flatten due) _
        ∙ ap (◌++◌ (flatten p.readable)) e)

-- The latency timer moves bytes to the reader's side and changes nothing of them: no loss, no
-- reordering.
pub contents-release_due_latency :
    (now : ℕ) (p : Pipe) → contents (release_due_latency now p) ≡ contents p
unfolding release_due_latency
contents-release_due_latency now p =
    if_cases (λ q. contents q ≡ contents p) p.read_closed _ _ (λ _. refl)
      (λ _. contents-move_due _ _ p (flatten-split_due now p.pending))

-- What a unit may turn into: itself, or itself with one bit flipped.
abbrev pub Intact : List ℕ → List ℕ → Type 0
Intact bytes u =
    (u ≡ bytes) ⊎ ((i : ℕ) × (b : ℕ) × (i < length bytes) × (b < 8) × (u ≡ flip_bit bytes i b))

-- What a write adds: nothing, the unit, or the unit twice over.
abbrev pub Adds : List ℕ → List ℕ → List ℕ → Type 0
Adds bytes before after =
    (after ≡ before)
    ⊎ ((u : List ℕ) × Intact bytes u × ((after ≡ before ++ u) ⊎ (after ≡ before ++ (u ++ u))))

abbrev pub delayed : FaultConfig → Bool
delayed cfg = cfg.latency_enabled || cfg.bandwidth_enabled

abbrev pub delays : Shared → Deliver → Bool
delays n pass_through = false
delays n (evaluator fp) = delayed (current fp n)

corrupt_unit-Intact :
    (fuel : ℕ) (c : Bool) (bytes : List ℕ) (s : Stream) (sent : Sent) (t : Stream)
    → IsWords s
    → corrupt_unit fuel c bytes s ≡ some (sent, t)
    → Intact bytes sent.bytes
unfolding corrupt_unit
corrupt_unit-Intact fuel c bytes s sent t w =
    if_cases (λ r. r ≡ some (sent, t) → Intact bytes sent.bytes) (c && ltb 0 (length bytes)) _ _
      (λ h e.
        let ((i, b, rest), site, result) =
          >>=-eq-some (corruption_site fuel (length bytes) s) _ e in
        let (i_lt, b_lt) =
          corruption_site_range fuel (length bytes) s i b rest w (ground arith) site in
        inr (i, b, i_lt, b_lt, ground arith))
      (λ _ e. inl (ground arith))

push_pending :
    (u : PendingUnit) (p : Pipe)
    → contents (record p { pending = p.pending ++ u ∷ [] }) ≡ contents p ++ u.bytes
push_pending u p = simp (map-append, flatten-append, append-nil, append_assoc)

pub push_readable :
    (u : List ℕ) (p : Pipe)
    → p.pending ≡ []
    → contents (record p { readable = p.readable ++ u ∷ [] }) ≡ contents p ++ u
push_readable u p h = simp (h, flatten-append, append-nil)

contents-arm : (now : ℕ) (p : Pipe) → contents (arm_latency_for_append now p) ≡ contents p
unfolding arm_latency_for_append
contents-arm now p =
    if_cases (λ q. contents q ≡ contents p) (length p.pending == 1) _ _ (λ _. refl) (λ _. refl)

contents-deliver_now :
    (e : FaultEvent) (d : Bool) (u : List ℕ) (p : Pipe)
    → p.pending ≡ []
    → contents (deliver_now e d u p) ≡ (if d then contents p ++ (u ++ u) else contents p ++ u)
unfolding deliver_now
contents-deliver_now e true u p h =
    push_readable u (record p { readable = p.readable ++ u ∷ [] }) h
    ∙ ap (λ x. x ++ u) (push_readable u p h)
    ∙ append_assoc (contents p) u u
contents-deliver_now e false u p h = push_readable u p h

contents-schedule :
    (now r : ℕ) (e : FaultEvent) (d : Bool) (u : List ℕ) (p : Pipe)
    → contents (schedule now r e d u p) ≡ (if d then contents p ++ (u ++ u) else contents p ++ u)
unfolding schedule
contents-schedule now r e true u p =
    push_pending unit (arm_latency_for_append now queued)
    ∙ ap (λ x. x ++ u) (contents-arm now queued ∙ push_pending unit p)
    ∙ append_assoc (contents p) u u
  where
    unit : PendingUnit
    unit = record { bytes = u; release_at = r }

    queued : Pipe
    queued = record (trace_event e p) { pending = p.pending ++ unit ∷ [] }
contents-schedule now r e false u p = contents-arm now queued ∙ push_pending unit p
  where
    unit : PendingUnit
    unit = record { bytes = u; release_at = r }

    queued : Pipe
    queued = record (trace_event e p) { pending = p.pending ++ unit ∷ [] }

added :
    (d : Bool) (bytes u before after : List ℕ)
    → Intact bytes u
    → after ≡ (if d then before ++ (u ++ u) else before ++ u)
    → Adds bytes before after
added true bytes u before after h e = inr (u, h, inr e)
added false bytes u before after h e = inr (u, h, inl e)

send_unit-Adds :
    (cfg : FaultConfig) (now : ℕ) (d : Decision) (size : ℕ) (bytes : List ℕ) (sent : Sent)
    (p : Pipe)
    → Intact bytes sent.bytes
    → ((p.pending ≡ []) ⊎ (delayed cfg ≡ true))
    → Adds bytes (contents p) (contents (send_unit cfg now d size sent p))
unfolding send_unit
send_unit-Adds cfg now d size bytes sent p h o =
    if_cases (λ q. Adds bytes (contents p) (contents q))
      (not cfg.latency_enabled && not cfg.bandwidth_enabled) _ _
      (λ e.
        added d.duplicated bytes sent.bytes _ _ h
          (contents-deliver_now _ d.duplicated sent.bytes _ (ground arith)))
      (λ _.
        added d.duplicated bytes sent.bytes _ _ h
          (contents-schedule now _ _ d.duplicated sent.bytes _))

contents-discard : (e : FaultEvent) (size : ℕ) (p : Pipe) → contents (discard e size p) ≡ contents p
unfolding discard
contents-discard e size p = refl

advance-IsWords : (enabled : Bool) (s : Stream) → IsWords s → IsWords (advance enabled s)
unfolding next
advance-IsWords true s w = w
advance-IsWords false s w = w

Drawn-IsWords :
    (fuel : ℕ) (cfg : FaultConfig) (p : Pipe) (d : Decision) (q : Pipe)
    → Drawn fuel cfg p d q
    → IsWords p.corrupt
    → IsWords q.corrupt
Drawn-IsWords fuel cfg p d q w h =
    subst (λ (s : Stream). IsWords s) (sym (ap (λ (x : Pipe). x.corrupt) w.pipe_is))
      (advance-IsWords cfg.corrupt_enabled p.corrupt h)

pub evaluate-Adds :
    (fuel : ℕ) (n : Shared) (now : ℕ) (fp : FaultPolicy) (bytes : List ℕ) (p q : Pipe)
    → IsWords p.corrupt
    → ((p.pending ≡ []) ⊎ (delayed (current fp n) ≡ true))
    → evaluate fuel n now fp bytes p ≡ some q
    → Adds bytes (contents p) (contents q)
evaluate-Adds fuel n now fp bytes p q w o =
    evaluate_rule (λ x. Adds bytes (contents p) (contents x)) fuel n now bytes fp p q
      (λ _. inl (contents-discard partitioned_event (length bytes) p))
      (λ d p1 _ drawn _.
        let w1 = draw_faults_lem fuel (current fp n) p d p1 drawn in
        inl (contents-discard _ (length bytes) p1 ∙ ap contents w1.pipe_is))
      (λ d p1 sent corrupt _ drawn _ found.
        let w1 = draw_faults_lem fuel (current fp n) p d p1 drawn in
        subst
          (λ before. Adds bytes before (
            contents (
              send_unit (current fp n) now d (length bytes) sent
                (record p1 { corrupt = corrupt }))))
          (ap contents w1.pipe_is)
          (send_unit-Adds (current fp n) now d (length bytes) bytes sent
            (record p1 { corrupt = corrupt })
            (corrupt_unit-Intact fuel d.corrupted bytes p1.corrupt sent corrupt
              (Drawn-IsWords fuel (current fp n) p d p1 w1 w) found)
            (elim o [ inl e ↦ inl (ap (λ (x : Pipe). x.pending) w1.pipe_is ∙ e) | inr e ↦ inr e ])))
