-- ===== src/Reset.antt =====
-- reset.go: the registry of the ends that Network.Reset can terminate, and Reset.
--
-- A *conn is the number of its connection, its place in the list of all that were established, and
-- its side. A map of lists is the list of its entries; a key without an entry has the empty list.
pub mod Apart
pub mod Refs
pub mod Running
pub mod Signaling
pub mod Establishing
pub mod Resets
use netchaos.Base.{
  ℕ, zero, suc, Bool, true, false, ◌&&◌, Option, none, some, List, [], ◌∷◌, ◌++◌, length, ◌==◌,
  if◌then◌else◌, ◌>>=◌, map,
}
use netchaos.Rand.{Side, dialer, acceptor}
use netchaos.Peers.{Str, PairKey, new_pair_key, eq_pair}
use netchaos.Partition.{Called, returned, panics, valid_pair}
use netchaos.Conn.{Link, close_actions, run_actions, signal_reset, abort_reset, end}

pub record ConnRef : Type 0 where
  pub link : ℕ
  pub side : Side

-- A connection with the pair of its peers.
pub record Established : Type 0 where
  pub pair : PairKey
  pub link : Link

-- An entry of resetTargets.
pub record Targets : Type 0 where
  pub pair : PairKey
  pub conns : List ConnRef

unfoldable pub eq_side : Side → Side → Bool
eq_side dialer dialer = true
eq_side dialer acceptor = false
eq_side acceptor dialer = false
eq_side acceptor acceptor = true

unfoldable pub eq_ref : ConnRef → ConnRef → Bool
unfolding eq_side
eq_ref c d = (c.link == d.link) && eq_side c.side d.side

unfoldable pub targets_of : PairKey → List Targets → List ConnRef
targets_of k [] = []
targets_of k (t ∷ ts) = let rest = targets_of k ts in if eq_pair t.pair k then t.conns else rest

unfoldable pub delete_targets : PairKey → List Targets → List Targets
delete_targets k [] = []
delete_targets k (t ∷ ts) =
    let rest = delete_targets k ts in if eq_pair t.pair k then rest else t ∷ rest

unfoldable pub set_targets : PairKey → List ConnRef → List Targets → List Targets
set_targets k cs ts = record { pair = k; conns = cs } ∷ ts

unfoldable pub register_reset : PairKey → List ConnRef → List Targets → List Targets
unfolding set_targets targets_of
register_reset k cs ts = set_targets k (targets_of k ts ++ cs) ts

-- The loop of deregisterReset: the targets without the end, if it is one of them.
unfoldable pub without : ConnRef → List ConnRef → Option (List ConnRef)
without c [] = none
without c (t ∷ ts) =
    let rest = (without c ts >>= λ r. some (t ∷ r)) in if eq_ref t c then some ts else rest

unfoldable pub assign_found : PairKey → Option (List ConnRef) → List Targets → List Targets
unfolding set_targets
assign_found k none ts = ts
assign_found k (some cs) ts = set_targets k cs ts

unfoldable pub deregister_reset : PairKey → ConnRef → List Targets → List Targets
unfolding assign_found without
deregister_reset k c ts = assign_found k (without c (targets_of k ts)) ts

unfoldable pub modify : ℕ → (Link → Link) → List Established → List Established
modify i f [] = []
modify zero f (e ∷ es) = record e { link = f e.link } ∷ es
modify (suc i) f (e ∷ es) = e ∷ modify i f es

-- What Reset does to an end, as an action on its connection.
pub record TargetAction : Type 0 where
  pub link : ℕ
  pub run : Link → Link

unfoldable pub action_on : (Side → Link → Link) → ConnRef → TargetAction
action_on f c = record { link = c.link; run = f c.side }

unfoldable pub take_actions : List TargetAction → List Established → List Established
unfolding modify
take_actions [] es = es
take_actions (a ∷ acts) es = take_actions acts (modify a.link a.run es)

-- The two loops of Reset over its targets.
unfoldable pub target_actions : List ConnRef → List TargetAction
unfolding action_on
target_actions cs = map (action_on signal_reset) cs ++ map (action_on abort_reset) cs

unfoldable pub reset_targets : List ConnRef → List Established → List Established
unfolding take_actions target_actions
reset_targets cs es = take_actions (target_actions cs) es

-- The registry and the connections.
pub record ResetNet : Type 0 where
  pub targets : List Targets
  pub conns : List Established

-- Reset past the names.
unfoldable pub reset_pair : PairKey → ResetNet → ResetNet
unfolding reset_targets targets_of
reset_pair k n = record {
  targets = delete_targets k n.targets;
  conns = reset_targets (targets_of k n.targets) n.conns;
}

-- `resolve` is canonicalPeer of peerName.
unfoldable pub reset : (Str → Str) → Str → Str → ResetNet → Called ResetNet
unfolding reset_pair
reset resolve a b n =
    if valid_pair a b
    then returned (reset_pair (new_pair_key (resolve a) (resolve b)) n)
    else panics

-- DialContext's registration of a new connection.
unfoldable pub established_pair : PairKey → Link → ResetNet → ResetNet
unfolding register_reset
established_pair k l n =
    let number = length n.conns in
    record {
      targets =
          register_reset k
            (record { link = number; side = dialer }
              ∷ record { link = number; side = acceptor }
              ∷ [])
            n.targets;
      conns = n.conns ++ record { pair = k; link = l } ∷ [];
    }

-- Close of an end, given its connection, with its deregistration.
unfoldable pub close_registered : ConnRef → Established → ResetNet → ResetNet
unfolding deregister_reset modify
close_registered c e n = if (end c.side e.link).closed then n else record {
  targets = deregister_reset e.pair c n.targets;
  conns = modify c.link (run_actions (close_actions c.side)) n.conns;
}
