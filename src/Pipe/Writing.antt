-- ===== src/Pipe/Writing.antt =====
-- What tryWrite answers, and what a write adds to the stream.
use netchaos.Base.{
  ℕ, ◌+◌, ◌≤◌, ◌<◌, ◌≡◌, refl, true, false, List, [], length, arith, inl, inr, along_some, ◌⊎◌,
  some,
}
use netchaos.Faults.{Shared}
use netchaos.Rand.Bounded.{IsWords}
use netchaos.Pipe.State.{Pipe, Deliver, pass_through, evaluator}
use netchaos.Pipe.Ops.{
  WriteResult, run_deliver, admit, try_write, wrote, closed_pipe, write_wait, on_pipe,
}
use netchaos.Pipe.Rules.{try_write_rule}
use netchaos.Pipe.Stream.{contents, Adds, delays, push_readable, evaluate-Adds}

deliver-Adds :
    (fuel : ℕ) (n : Shared) (now : ℕ) (dl : Deliver) (bytes : List ℕ) (p q : Pipe)
    → IsWords p.corrupt
    → ((p.pending ≡ []) ⊎ (delays n dl ≡ true))
    → run_deliver fuel n now dl bytes p ≡ some q
    → Adds bytes (contents p) (contents q)
unfolding run_deliver
deliver-Adds fuel n now pass_through bytes p q w (inl o) e =
    along_some (λ (x : Pipe). Adds bytes (contents p) (contents x)) e
      (inr (bytes, inl refl, inl (push_readable bytes p o)))
deliver-Adds fuel n now pass_through bytes p q w (inr o) e = absurd (ground arith)
deliver-Adds fuel n now (evaluator fp) bytes p q w o e = evaluate-Adds fuel n now fp bytes p q w o e

abbrev pub WriteSpec : Shared → List ℕ → Pipe → WriteResult × Pipe → Type 0
WriteSpec n bytes p (wrote k, q) =
    (k ≡ length bytes)
    × (p.closed ≡ false)
    × (p.read_closed ≡ false)
    × ((p.buf_bytes ≡ 0) ⊎ (p.buf_bytes + length bytes ≤ p.bound))
    × Adds bytes (contents p) (contents q)
WriteSpec n bytes p (closed_pipe, q) = ((p.closed ≡ true) ⊎ (p.read_closed ≡ true)) × (q ≡ p)
WriteSpec n bytes p (write_wait w, q) =
    (p.closed ≡ false)
    × (0 < p.buf_bytes)
    × (p.bound < p.buf_bytes + length bytes)
    × (w ≡ on_pipe p.notify)
    × (q ≡ p)

-- What tryWrite answers, on every branch. A write to a pipe that either end has closed fails. A
-- write is accepted, whole, exactly if the pipe is empty or has room for it, and then adds to the
-- bytes in the pipe nothing, itself or itself twice over, with at most one bit of it flipped.
-- Otherwise the writer waits for the pipe and nothing changes. (A pipe whose evaluator delivers at
-- once holds nothing back.)
pub try_write_lem :
    (fuel : ℕ) (n : Shared) (now : ℕ) (bytes : List ℕ) (p : Pipe) (r : WriteResult × Pipe)
    → IsWords p.corrupt
    → ((p.pending ≡ []) ⊎ (delays n p.deliver ≡ true))
    → try_write fuel n now bytes p ≡ some r
    → WriteSpec n bytes p r
unfolding admit
try_write_lem fuel n now bytes p r w o =
    try_write_rule (WriteSpec n bytes p) fuel n now bytes p r (λ c. (ground arith, refl))
      (λ q c a e. (
        refl,
        ground arith,
        ground arith,
        ground arith,
        deliver-Adds fuel n now p.deliver bytes _ q w o e,
      ))
      (λ c a. (ground arith, ground arith, ground arith, refl, refl))
