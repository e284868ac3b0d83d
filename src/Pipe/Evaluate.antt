-- ===== src/Pipe/Evaluate.antt =====
-- installFaultPolicy of faults.go: the evaluator that each admitted unit goes through, in the
-- order partition, loss, bandwidth, latency, corruption, duplication.
use Prim.Native.Nat.{bit_xor}
use netchaos.Base.{
  ℕ, zero, suc, ◌+◌, ◌-◌, ◌^◌, min, Bool, true, false, ◌&&◌, not, Option, some, List, [], ◌∷◌, ◌++◌,
  ltb, if◌then◌else◌, ◌>>=◌, length,
}
use netchaos.Base.Float.{Float64}
use netchaos.Bandwidth.{serialization_delay, serialized, max_int64}
use netchaos.Rand.{Stream, bernoulli, uniform_duration, corruption_site}
use netchaos.Faults.{FaultConfig, FaultEvent, FaultPolicy, Shared, is_partitioned}
use netchaos.Pipe.State.{
  Pipe, PendingUnit, evaluator, broadcast, trace_event, arm_latency_for_append,
}

unfoldable pub current : FaultPolicy → Shared → FaultConfig
current fp n = if fp.has_network then n.faults else fp.static

abbrev pub no_event : FaultEvent
no_event = record {
  seq = 0;
  partitioned = false;
  dropped = false;
  duplicated = false;
  corrupted = false;
  drawn = 0;
  serialized = 0;
  effective = 0;
  size = 0;
  corrupt_byte = 0;
  corrupt_bit = 0;
}

-- What the draws of one unit decided.
pub record Decision : Type 0 where
  pub dropped : Bool
  pub drawn : ℕ
  pub duplicated : Bool
  pub corrupted : Bool

-- A trial that is only made if its fault is enabled.
unfoldable pub trial : Bool → Float64 → Stream → Bool × Stream
trial enabled rate s = if enabled then bernoulli rate s else (false, s)

unfoldable pub draw_latency : ℕ → FaultConfig → Stream → Option (ℕ × Stream)
draw_latency fuel cfg s =
    if cfg.latency_enabled
    then uniform_duration fuel cfg.latency_min cfg.latency_max s
    else some (0, s)

unfoldable pub draw_faults : ℕ → FaultConfig → Pipe → Option (Decision × Pipe)
draw_faults fuel cfg p = do
  let (dropped, loss) = trial cfg.loss_enabled cfg.loss_rate p.loss
  (drawn, latency) ← draw_latency fuel cfg p.latency
  let (duplicated, duplicate) = trial cfg.duplicate_enabled cfg.duplicate_rate p.duplicate
  let (corrupted, corrupt) = trial cfg.corrupt_enabled cfg.corrupt_rate p.corrupt
  some (
    record { dropped = dropped; drawn = drawn; duplicated = duplicated; corrupted = corrupted },
    record p { loss = loss; latency = latency; duplicate = duplicate; corrupt = corrupt },
  )

-- A unit that is not delivered gives its bytes back and leaves an event.
unfoldable pub discard : FaultEvent → ℕ → Pipe → Pipe
unfolding broadcast trace_event
discard e size p = broadcast (trace_event e (record p { buf_bytes = p.buf_bytes - size }))

-- data[i] ^= 1 << b
unfoldable pub flip_bit : List ℕ → ℕ → ℕ → List ℕ
flip_bit [] i b = []
flip_bit (x ∷ xs) zero b = bit_xor x (2 ^ b) ∷ xs
flip_bit (x ∷ xs) (suc i) b = x ∷ flip_bit xs i b

-- time.Time.Sub for a minuend that is not before the subtrahend: cut off at max_int64.
abbrev pub sub_time : ℕ → ℕ → ℕ
sub_time a b = min (a - b) max_int64

-- The instant at which the unit has been transmitted, and the new busyUntil.
unfoldable pub transmit : FaultConfig → ℕ → ℕ → ℕ → ℕ × ℕ
transmit cfg now size busy_until =
    let start = if ltb now busy_until then busy_until else now in
    let base = start + serialized (serialization_delay size cfg.bandwidth_bps) in
    if cfg.bandwidth_enabled then (base, base) else (now, busy_until)

-- No delay: the unit, and its copy, are readable at once.
unfoldable pub deliver_now : FaultEvent → Bool → List ℕ → Pipe → Pipe
unfolding trace_event broadcast
deliver_now e duplicated bytes p =
    let q = trace_event e p in
    let q1 = record q { readable = q.readable ++ bytes ∷ [] } in
    let q2 = record q1 {
      readable = q1.readable ++ bytes ∷ [];
      buf_bytes = q1.buf_bytes + length bytes;
    } in
    broadcast (if duplicated then q2 else q1)

-- The release instant is not before that of the last pending unit.
unfoldable pub clamp_release : ℕ → List PendingUnit → ℕ
clamp_release t [] = t
clamp_release t (u ∷ []) = if ltb t u.release_at then u.release_at else t
clamp_release t (u ∷ v ∷ us) = clamp_release t (v ∷ us)

-- The unit, and its copy, wait for their release.
unfoldable pub schedule : ℕ → ℕ → FaultEvent → Bool → List ℕ → Pipe → Pipe
unfolding trace_event arm_latency_for_append
schedule now release_at e duplicated bytes p =
    let unit : PendingUnit = record { bytes = bytes; release_at = release_at } in
    let q = trace_event e p in
    let q1 = arm_latency_for_append now (record q { pending = q.pending ++ unit ∷ [] }) in
    let q2 = record q1 {
      buf_bytes = q1.buf_bytes + length bytes;
      pending = q1.pending ++ unit ∷ [];
    } in
    if duplicated then q2 else q1

-- The bytes of a unit as they go out, and the site of the corruption.
pub record Sent : Type 0 where
  pub bytes : List ℕ
  pub byte_index : ℕ
  pub bit_index : ℕ

unfoldable pub flip_drawn : ℕ → List ℕ → Stream → Option (Sent × Stream)
flip_drawn fuel bytes s = do
  (i, b, rest) ← corruption_site fuel (length bytes) s
  some (record { bytes = flip_bit bytes i b; byte_index = i; bit_index = b }, rest)

-- The bytes after corruption, the byte and bit that it hit, and the stream.
unfoldable pub corrupt_unit : ℕ → Bool → List ℕ → Stream → Option (Sent × Stream)
unfolding flip_drawn
corrupt_unit fuel corrupted bytes s =
    if corrupted && ltb 0 (length bytes)
    then flip_drawn fuel bytes s
    else some (record { bytes = bytes; byte_index = 0; bit_index = 0 }, s)

unfoldable pub send_unit : FaultConfig → ℕ → Decision → ℕ → Sent → Pipe → Pipe
send_unit cfg now d size sent p =
    let (base, busy_until) = transmit cfg now size p.busy_until in
    let p1 = record p { busy_until = busy_until } in
    let release_at = clamp_release (base + d.drawn) p.pending in
    let e = record no_event {
      duplicated = d.duplicated;
      corrupted = d.corrupted;
      size = size;
      corrupt_byte = sent.byte_index;
      corrupt_bit = sent.bit_index;
    } in
    let timed = record e {
      drawn = d.drawn;
      serialized = if cfg.bandwidth_enabled then sub_time base now else 0;
      effective = sub_time release_at base;
    } in
    if not cfg.latency_enabled && not cfg.bandwidth_enabled
    then deliver_now e d.duplicated sent.bytes p1
    else schedule now release_at timed d.duplicated sent.bytes p1

-- What follows the draws, for a unit that was not dropped.
unfoldable pub deliver_unit : ℕ → FaultConfig → ℕ → Decision → List ℕ → Pipe → Option Pipe
deliver_unit fuel cfg now d bytes p = do
  (sent, corrupt) ← corrupt_unit fuel d.corrupted bytes p.corrupt
  some (send_unit cfg now d (length bytes) sent (record p { corrupt = corrupt }))

abbrev pub lost_event : ℕ → Decision → FaultEvent
lost_event size d = record no_event {
  dropped = true;
  drawn = d.drawn;
  duplicated = d.duplicated;
  corrupted = d.corrupted;
  size = size;
}

abbrev pub partitioned_event : FaultEvent
partitioned_event = record no_event { partitioned = true }

unfoldable pub after_draws : ℕ → FaultConfig → ℕ → List ℕ → Decision → Pipe → Option Pipe
after_draws fuel cfg now bytes d p =
    if d.dropped
    then some (discard (lost_event (length bytes) d) (length bytes) p)
    else deliver_unit fuel cfg now d bytes p

unfoldable pub evaluate : ℕ → Shared → ℕ → FaultPolicy → List ℕ → Pipe → Option Pipe
unfolding current
evaluate fuel n now fp bytes p =
    let cfg = current fp n in
    if fp.has_network && is_partitioned n fp.pair
    then some (discard partitioned_event (length bytes) p)
    else (draw_faults fuel cfg p >>= λ r. after_draws fuel cfg now bytes r.0 r.1)

unfoldable pub install_fault_policy : FaultPolicy → Pipe → Pipe
install_fault_policy fp p = record p {
  has_network = fp.has_network;
  partition_pair = fp.pair;
  deliver = evaluator fp;
}
