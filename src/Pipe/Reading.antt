-- ===== src/Pipe/Reading.antt =====
-- What tryRead hands to the reader.
use netchaos.Base.{
  ℕ, zero, suc, ◌-◌, ◌≤◌, ◌<◌, ◌≡◌, refl, sym, ap, true, false, ◌||◌, List, [], ◌∷◌, ◌++◌, ltb, leb,
  ◌==◌, length, take, drop, flatten, arith, Bool-cases, if_cases, leb→le, inl, inr, ◌⊎◌, ◌≢◌,
}
use netchaos.Faults.{Shared, is_partitioned}
use netchaos.Pipe.State.{Pipe, is_nil}
use netchaos.Pipe.Ops.{
  ReadResult, got, eof, read_wait, on_pipe, on_partition, consume, at_end, drain, try_read,
}

take-append_le :
    (n : ℕ) (xs ys : List ℕ) → length xs ≤ n → take n (xs ++ ys) ≡ xs ++ take (n - length xs) ys
take-append_le n [] ys h = ap (λ k. take k ys) (omega arith)
take-append_le zero (x ∷ xs) ys h = absurd (omega arith)
take-append_le (suc n) (x ∷ xs) ys h =
    rw (take-append_le n xs ys (omega arith)) (ap (λ k. x ∷ (xs ++ take k ys)) (omega arith))

drop-append_le :
    (n : ℕ) (xs ys : List ℕ) → length xs ≤ n → drop n (xs ++ ys) ≡ drop (n - length xs) ys
drop-append_le n [] ys h = ap (λ k. drop k ys) (omega arith)
drop-append_le zero (x ∷ xs) ys h = absurd (omega arith)
drop-append_le (suc n) (x ∷ xs) ys h =
    rw (drop-append_le n xs ys (omega arith)) (ap (λ k. drop k ys) (omega arith))

take-append_gt : (n : ℕ) (xs ys : List ℕ) → n ≤ length xs → take n (xs ++ ys) ≡ take n xs
take-append_gt zero xs ys h = refl
take-append_gt (suc n) [] ys h = absurd (omega arith)
take-append_gt (suc n) (x ∷ xs) ys h = ap (◌∷◌ x) (take-append_gt n xs ys (omega arith))

drop-append_gt : (n : ℕ) (xs ys : List ℕ) → n ≤ length xs → drop n (xs ++ ys) ≡ drop n xs ++ ys
drop-append_gt zero xs ys h = refl
drop-append_gt (suc n) [] ys h = absurd (omega arith)
drop-append_gt (suc n) (x ∷ xs) ys h = drop-append_gt n xs ys (omega arith)

-- The loop copies the longest prefix of the queued bytes that fits, and leaves the rest.
pub consume_lem :
    (room : ℕ) (cs : List (List ℕ))
    → ((consume room cs).0 ≡ take room (flatten cs))
      × (flatten (consume room cs).1 ≡ drop room (flatten cs))
unfolding consume
consume_lem zero [] = (refl, refl)
consume_lem (suc r) [] = (refl, refl)
consume_lem zero (c ∷ cs) = (refl, refl)
consume_lem (suc r) (c ∷ cs) = elim (Bool-cases (leb (length c) (suc r))) [
  | inl e ↦ rw e (
      let fits = leb→le (length c) (suc r) e in
      let ih = consume_lem (suc r - length c) cs in
      (
        rw (take-append_le (suc r) c (flatten cs) fits) (ap (◌++◌ c) ih.0),
        rw (drop-append_le (suc r) c (flatten cs) fits) ih.1,
      ))
  | inr e ↦ rw e (
      let over : suc r ≤ length c = ground arith in
      (
        sym (take-append_gt (suc r) c (flatten cs) over),
        sym (drop-append_gt (suc r) c (flatten cs) over),
      ))
]

-- Whether the reader's end of file waits for a partition to heal.
abbrev pub IsHeld : Shared → Pipe → Type 0
IsHeld n p =
    (p.eof_seen ≡ false) × (p.has_network ≡ true) × (is_partitioned n p.partition_pair ≡ true)

abbrev pub ReadSpec : Shared → ℕ → Pipe → ReadResult × Pipe → Type 0
ReadSpec n room p (got out, q) =
    (p.read_closed ≡ false)
    × (out ≡ take room (flatten p.readable))
    × (flatten q.readable ≡ drop room (flatten p.readable))
    × (q.pending ≡ p.pending)
    × ((0 < length out) ⊎ (room ≡ 0))
ReadSpec n room p (eof, q) =
    (p.read_closed ≡ true)
    ⊎ ((p.closed ≡ true)
        × (p.pending ≡ [])
        × (flatten p.readable ≡ [])
        × (¬ IsHeld n p)
        × (q.eof_seen ≡ true))
ReadSpec n room p (read_wait (on_pipe g), q) =
    (p.read_closed ≡ false)
    × (flatten p.readable ≡ [])
    × ((p.closed ≡ false) ⊎ (p.pending ≢ []))
    × (g ≡ q.notify)
ReadSpec n room p (read_wait (on_partition g), q) =
    (p.read_closed ≡ false)
    × (flatten p.readable ≡ [])
    × (p.closed ≡ true)
    × (p.pending ≡ [])
    × IsHeld n p
    × (g ≡ n.part_notify)

no_bytes :
    (room : ℕ) (bytes : List ℕ) → ltb 0 (length (take room bytes)) ≡ false → room ≢ 0 → bytes ≡ []
no_bytes room [] h k = refl
no_bytes zero (x ∷ xs) h k = absurd (k refl)
no_bytes (suc room) (x ∷ xs) h k = ground arith

at_end_lem :
    (n : Shared) (room : ℕ) (p : Pipe) (rs : List (List ℕ)) (k m : ℕ)
    → p.read_closed ≡ false
    → flatten p.readable ≡ []
    → ReadSpec n room p (at_end n (record p { readable = rs; buf_bytes = k; notify = m }))
unfolding at_end
at_end_lem n room p rs k m h e = ground arith

drain_lem :
    (n : Shared) (room : ℕ) (p : Pipe) → p.read_closed ≡ false → ReadSpec n room p (drain n room p)
unfolding drain
drain_lem n room p h = elim (Bool-cases (ltb 0 (length (consume room p.readable).0) || room == 0)) [
  | inl e ↦
      rw e (h, (consume_lem room p.readable).0, (consume_lem room p.readable).1, refl, ground arith)
  | inr e ↦ rw e (
      at_end_lem n room p _ _ _ h (
        no_bytes room (flatten p.readable) (ground (arith, consume_lem room p.readable))
          (ground arith)))
]

-- What tryRead answers, on every branch. Bytes come out as the longest prefix that fits of what is
-- readable, and the rest stays. End of file is reported only after the reader's own close, or
-- once the writer has closed, nothing is pending or readable, and no partition holds it back.
-- Otherwise the reader waits: on the pipe, as it stands after the call, while more may come, and on
-- the partition while that holds the end of file back.
pub try_read_lem : (n : Shared) (room : ℕ) (p : Pipe) → ReadSpec n room p (try_read n room p)
unfolding try_read
try_read_lem n room p =
    if_cases (ReadSpec n room p) p.read_closed _ _ (λ e. inl e)
      (λ e.
        if_cases (ReadSpec n room p) (is_nil p.readable) _ _
          (λ none_left. at_end_lem n room p p.readable p.buf_bytes p.notify e (ground arith))
          (λ _. drain_lem n room p e))
