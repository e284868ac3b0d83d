-- ===== src/Pipe/Steps.antt =====
-- Every interleaving of the operations of a pipe, and what always holds.
use netchaos.Base.{ℕ, ◌≡◌, refl, List, Option, some}
use netchaos.Peers.{PairKey}
use netchaos.Faults.{Shared, FaultEvent, FaultPolicy}
use netchaos.Rand.{Stream}
use netchaos.Pipe.State.{Pipe, release_due_latency}
use netchaos.Pipe.Evaluate.{install_fault_policy}
use netchaos.Pipe.Ops.{WriteResult, new_pipe, try_read, try_write, close, abort}
use netchaos.Pipe.Invariant.{Inv, try_read-Inv, close-Inv, abort-Inv, release_due_latency-Inv}
use netchaos.Pipe.Admission.{try_write-Inv}

-- One operation on a pipe, by any goroutine at any instant.
pub data Step : Pipe → Pipe → Type 0 where
  reads : (n : Shared) (room : ℕ) (p : Pipe) → Step p (try_read n room p).1
  writes :
      (fuel : ℕ) (n : Shared) (now : ℕ) (bytes : List ℕ) (p : Pipe) (r : WriteResult × Pipe)
      → try_write fuel n now bytes p ≡ some r
      → Step p r.1
  releases : (now : ℕ) (p : Pipe) → Step p (release_due_latency now p)
  closes : (p : Pipe) → Step p (close p)
  aborts : (p : Pipe) → Step p (abort p)

pub data Reach (p : Pipe) : Pipe → Type 0 where
  here : Reach p p
  then_step : {q r : Pipe} → Reach p q → Step q r → Reach p r

Step-Inv : {p q : Pipe} → Step p q → Inv p → Inv q
Step-Inv (reads n room p) v = try_read-Inv n room p v
Step-Inv (writes fuel n now bytes p r e) v = try_write-Inv fuel n now bytes p r v e
Step-Inv (releases now p) v = release_due_latency-Inv now p v
Step-Inv (closes p) v = close-Inv p v
Step-Inv (aborts p) v = abort-Inv p v

Reach-Inv : {p q : Pipe} → Inv p → Reach p q → Inv q
Reach-Inv v here = v
Reach-Inv v (then_step r s) = Step-Inv s (Reach-Inv v r)

pub new_pipe-Inv :
    (bound : ℕ) (pair : PairKey) (l t d c : Stream) (trace : Option (List FaultEvent))
    (fp : FaultPolicy)
    → Inv (install_fault_policy fp (new_pipe bound pair l t d c trace))
unfolding install_fault_policy new_pipe
new_pipe-Inv bound pair l t d c trace fp = record {
  accounted = refl;
  ordered = tt;
  armed = tt;
  discarded = λ e. cc;
}

-- Whatever the goroutines of a connection do, and whatever the faults decide, a pipe accounts for
-- exactly the bytes in it, holds its pending units in the order of their release with one timer for
-- them, and holds nothing once its reader has closed it.
pub new_pipe-Reach-Inv :
    (bound : ℕ) (pair : PairKey) (l t d c : Stream) (trace : Option (List FaultEvent))
    (fp : FaultPolicy) (q : Pipe)
    → Reach (install_fault_policy fp (new_pipe bound pair l t d c trace)) q
    → Inv q
new_pipe-Reach-Inv bound pair l t d c trace fp q r =
    Reach-Inv (new_pipe-Inv bound pair l t d c trace fp) r
