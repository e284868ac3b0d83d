-- ===== src/Dial/World.antt =====
-- DialContext of netchaos.go with what it registers: the connection, for Reset and for Trace.
use netchaos.Base.{
  ℕ, ◌≡◌, Bool, Option, some, List, [], ◌∷◌, ◌++◌, length, get_elem?, if◌then◌else◌, ◌>>=◌,
}
use netchaos.Rand.{Side, dialer, acceptor}
use netchaos.Peers.{Str, PairKey, new_pair_key}
use netchaos.Addr.{NetIp, NetworkName}
use netchaos.Network.{Network}
use netchaos.Dial.{established, refused, full, no_address, local_name}
use netchaos.Dial.Lookup.{Target, Checked, failed, ready, check_dial}
use netchaos.Book.{Book}
use netchaos.Dial.Parties.{Parties}
use netchaos.Dial.Whole.{DialAnswer, failed_check, blocked, answered, dial_checked}
use netchaos.Dial.Ordinals.{Ordinals}
use netchaos.Dial.Connection.{new_connection}
use netchaos.Reset.{Established, ResetNet, targets_of, established_pair}

-- A handle as it is registered: its recorder is that of the pipe which the side writes to.
pub record RecorderRef : Type 0 where
  pub ordinal : ℕ
  pub side : Side
  pub link : ℕ

pub record World : Type 0 where
  pub network : Network
  pub resets : ResetNet
  pub traces : List RecorderRef

abbrev target_pair : Target → ℕ → PairKey
target_pair t ordinal = new_pair_key (local_name t.local_name ordinal) t.peer

unfoldable pub both_recorders : ℕ → ℕ → List RecorderRef
both_recorders ordinal c =
    record { ordinal = ordinal; side = dialer; link = c }
    ∷ record { ordinal = ordinal; side = acceptor; link = c }
    ∷ []

module _ (sum256 : List ℕ → List ℕ) (chacha8 : List ℕ → ℕ → ℕ) where
  unfoldable pub registered : Target → ℕ → Network → World → World
  unfolding new_connection established_pair both_recorders
  registered t ordinal m w =
      let pair = target_pair t ordinal in
      let c = length w.resets.conns in
      record {
        network = m;
        resets = established_pair pair (new_connection sum256 chacha8 m ordinal pair) w.resets;
        traces = if m.trace_enabled then w.traces ++ both_recorders ordinal c else w.traces;
      }

  unfoldable pub after_dial : Checked → DialAnswer × Network → World → World
  unfolding registered
  after_dial (ready t) (answered (established ordinal), m) w = registered t ordinal m w
  after_dial (ready t) (answered refused, m) w = record w { network = m }
  after_dial (ready t) (answered full, m) w = record w { network = m }
  after_dial (ready t) (answered no_address, m) w = record w { network = m }
  after_dial (ready t) (failed_check e, m) w = record w { network = m }
  after_dial (ready t) (blocked generation, m) w = record w { network = m }
  after_dial (failed e) (a, m) w = record w { network = m }

  -- A dial that nothing comes in between of; its connection is the next one.
  unfoldable pub dial_world :
      ℕ
      → NetIp
      → Bool
      → Option Str
      → NetworkName
      → Str
      → List ℕ
      → World
      → Option (DialAnswer × World)
  unfolding after_dial dial_checked
  dial_world fuel net done name network addr range w =
      let x = check_dial net done name network addr w.network in
      dial_checked fuel net (length w.resets.conns) range x >>= λ r. some (r.0, after_dial x.0 r w)

  -- What Reset and Trace know of the connection of a dial, given what its pair is.
  abbrev pub Registered : (ℕ → PairKey → Type 0) → World → DialAnswer × World → Type 0
  Registered IsPair w (answered (established ordinal), v) =
      (e : Established) × IsPair ordinal e.pair
      × (get_elem? v.resets.conns (length w.resets.conns) ≡ some e)
      × (targets_of e.pair v.resets.targets
          ≡ targets_of e.pair w.resets.targets
            ++ record { link = length w.resets.conns; side = dialer }
              ∷ record { link = length w.resets.conns; side = acceptor }
              ∷ [])
      × (e.link ≡ new_connection sum256 chacha8 v.network ordinal e.pair)
      × (v.traces ≡ (
          if v.network.trace_enabled
          then w.traces ++ both_recorders ordinal (length w.resets.conns)
          else w.traces))
  Registered IsPair w (answered refused, v) = (v.resets ≡ w.resets) × (v.traces ≡ w.traces)
  Registered IsPair w (answered full, v) = (v.resets ≡ w.resets) × (v.traces ≡ w.traces)
  Registered IsPair w (answered no_address, v) = (v.resets ≡ w.resets) × (v.traces ≡ w.traces)
  Registered IsPair w (failed_check e, v) = (v.resets ≡ w.resets) × (v.traces ≡ w.traces)
  Registered IsPair w (blocked generation, v) = (v.resets ≡ w.resets) × (v.traces ≡ w.traces)
