-- ===== src/Reset/Running.antt =====
-- reset.go: dials, Closes and Resets in any order, one critical section at a time.
use netchaos.Base.{ℕ, ◌≡◌, true, false, ◌||◌, some, List, [], ◌∷◌, ◌++◌, get_elem?}
use netchaos.Rand.{Side}
use netchaos.Peers.{PairKey}
use netchaos.Pipe.State.{Pipe}
use netchaos.Conn.{Conn, Link, new_conn_pair, end, signal_reset}
use netchaos.Conn.Steps.{LinkStep}
use netchaos.Reset.{
  ConnRef, Established, Targets, ResetNet, targets_of, delete_targets, deregister_reset, modify,
  established_pair,
}
use netchaos.Reset.Refs.{has_ref}

-- With the targets that the Resets under way have taken, and have yet to signal.
pub record Running : Type 0 where
  pub net : ResetNet
  pub resetting : List ConnRef

abbrev pub with_conns : List Established → ResetNet → ResetNet
with_conns es n = record n { conns = es }

abbrev pub with_targets : List Targets → ResetNet → ResetNet
with_targets ts n = record n { targets = ts }

pub data ResetStep : Running → Running → Type 0 where
  establishing :
      (k : PairKey) (up down : Pipe) (r : Running)
      → ResetStep r (record r { net = established_pair k (new_conn_pair up down) r.net })
  acting :
      (i : ℕ) (e : Established) (l : Link) (r : Running)
      → get_elem? r.net.conns i ≡ some e
      → LinkStep e.link l
      → ResetStep r (record r { net = with_conns (modify i (λ _. l) r.net.conns) r.net })
  deregistering :
      (c : ConnRef) (e : Established) (r : Running)
      → get_elem? r.net.conns c.link ≡ some e
      → (end c.side e.link).closed ≡ true
      → ResetStep r
          (record r { net = with_targets (deregister_reset e.pair c r.net.targets) r.net })
  taking :
      (k : PairKey) (r : Running)
      → ResetStep r (record {
        net = with_targets (delete_targets k r.net.targets) r.net;
        resetting = r.resetting ++ targets_of k r.net.targets;
      })
  signaling_one :
      (xs : List ConnRef) (c : ConnRef) (ys : List ConnRef) (r : Running)
      → r.resetting ≡ xs ++ c ∷ ys
      → ResetStep r (record {
        net = with_conns (modify c.link (signal_reset c.side) r.net.conns) r.net;
        resetting = xs ++ ys;
      })

pub data ResetReach (r : Running) : Running → Type 0 where
  here : ResetReach r r
  then_step : {q p : Running} → ResetReach r q → ResetStep q p → ResetReach r p

abbrev pub idle : Running
idle = record { net = record { targets = []; conns = [] }; resetting = [] }

abbrev pub at : ℕ → Side → ConnRef
at i s = record { link = i; side = s }

abbrev pub Live : Conn → Type 0
Live c = (c.closed ≡ false) × (c.reset ≡ false)

-- The connection that a reference names, under a pair.
abbrev pub Owns : ResetNet → PairKey → ConnRef → Type 0
Owns n k c = (e : Established) × (get_elem? n.conns c.link ≡ some e) × (e.pair ≡ k)

pub record RegisteredInv (r : Running) : Type 0 where
  pub tracked :
      (i : ℕ) (s : Side) (e : Established)
      → get_elem? r.net.conns i ≡ some e
      → Live (end s e.link)
      → (has_ref (at i s) (targets_of e.pair r.net.targets) || has_ref (at i s) r.resetting) ≡ true
  pub owned :
      (k : PairKey) (c : ConnRef) → has_ref c (targets_of k r.net.targets) ≡ true → Owns r.net k c
