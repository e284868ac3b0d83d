-- ===== src/Pipe/Rules.antt =====
-- One rule for the evaluator and one for tryWrite: a property of the pipe after a write, from the
-- ways in which the write can go.
use netchaos.Base.{
  ℕ, ◌+◌, ◌≡◌, true, false, ◌&&◌, ◌||◌, List, leb, ◌==◌, length, if_cases, along_some, some,
  >>=-eq-some,
}
use netchaos.Faults.{Shared, FaultPolicy, is_partitioned}
use netchaos.Rand.{Stream}
use netchaos.Pipe.State.{Pipe}
use netchaos.Pipe.Evaluate.{
  Decision, discard, draw_faults, deliver_unit, send_unit, Sent, corrupt_unit, after_draws,
  evaluate, current, lost_event, partitioned_event,
}
use netchaos.Pipe.Ops.{WriteResult, admit, try_write, wrote, closed_pipe, write_wait, on_pipe}

module _ {ℓ} (P : Pipe → Type ℓ) (fuel : ℕ) (n : Shared) (now : ℕ) (bytes : List ℕ) where
  pub evaluate_rule :
      (fp : FaultPolicy) (p q : Pipe)
      → ((fp.has_network && is_partitioned n fp.pair) ≡ true
          → P (discard partitioned_event (length bytes) p))
      → ((d : Decision) (p1 : Pipe)
          → (fp.has_network && is_partitioned n fp.pair) ≡ false
          → draw_faults fuel (current fp n) p ≡ some (d, p1)
          → d.dropped ≡ true
          → P (discard (lost_event (length bytes) d) (length bytes) p1))
      → ((d : Decision) (p1 : Pipe) (sent : Sent) (corrupt : Stream)
          → (fp.has_network && is_partitioned n fp.pair) ≡ false
          → draw_faults fuel (current fp n) p ≡ some (d, p1)
          → d.dropped ≡ false
          → corrupt_unit fuel d.corrupted bytes p1.corrupt ≡ some (sent, corrupt)
          → P (
              send_unit (current fp n) now d (length bytes) sent (record p1 { corrupt = corrupt })))
      → evaluate fuel n now fp bytes p ≡ some q
      → P q
  unfolding evaluate after_draws deliver_unit
  evaluate_rule fp p q cut lost sent =
      if_cases (λ r. r ≡ some q → P q) (fp.has_network && is_partitioned n fp.pair) _ _
        (λ c e. along_some P e (cut c))
        (λ c e.
          let ((d, p1), drawn, rest) = >>=-eq-some (draw_faults fuel (current fp n) p) _ e in
          decided c d p1 drawn rest)
    where
      decided :
          (fp.has_network && is_partitioned n fp.pair) ≡ false
          → (d : Decision) (p1 : Pipe) → draw_faults fuel (current fp n) p ≡ some (d, p1)
          → after_draws fuel (current fp n) now bytes d p1 ≡ some q
          → P q
      decided c d p1 drawn =
          if_cases (λ r. r ≡ some q → P q) d.dropped _ _
            (λ x e. along_some P e (lost d p1 c drawn x))
            (λ x e.
              let ((s, corrupt), found, rest) =
                >>=-eq-some (corrupt_unit fuel d.corrupted bytes p1.corrupt) _ e in
              along_some P rest (sent d p1 s corrupt c drawn x found))

module _ {ℓ} (R : WriteResult × Pipe → Type ℓ) (fuel : ℕ) (n : Shared) (now : ℕ)
    (bytes : List ℕ) where
  pub try_write_rule :
      (p : Pipe) (r : WriteResult × Pipe)
      → ((p.closed || p.read_closed) ≡ true → R (closed_pipe, p))
      → ((q : Pipe)
          → (p.closed || p.read_closed) ≡ false
          → (p.buf_bytes == 0 || leb (p.buf_bytes + length bytes) p.bound) ≡ true
          → admit fuel n now bytes p ≡ some q
          → R (wrote (length bytes), q))
      → ((p.closed || p.read_closed) ≡ false
          → (p.buf_bytes == 0 || leb (p.buf_bytes + length bytes) p.bound) ≡ false
          → R (write_wait (on_pipe p.notify), p))
      → try_write fuel n now bytes p ≡ some r
      → R r
  unfolding try_write
  try_write_rule p r closed admitted full =
      if_cases (λ x. x ≡ some r → R r) (p.closed || p.read_closed) _ _
        (λ c e. along_some R e (closed c))
        (λ c.
          if_cases (λ x. x ≡ some r → R r)
            (p.buf_bytes == 0 || leb (p.buf_bytes + length bytes) p.bound) _ _
            (λ a e.
              let (q, done, rest) = >>=-eq-some (admit fuel n now bytes p) _ e in
              along_some R rest (admitted q c a done))
            (λ a e. along_some R e (full c a)))
