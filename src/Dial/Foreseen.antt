-- ===== src/Dial/Foreseen.antt =====
-- netchaos.go, conn.go and faults.go: the faults of a connection that DialContext makes, from the seed.
use netchaos.Base.{
  ℕ, suc, ◌+◌, ◌/◌, ◌%◌, ◌^◌, ◌<◌, ◌≡◌, refl, sym, ap, ◌∙◌, Bool, true, false, ◌&&◌, none, some,
  List, [], ◌∷◌, ◌++◌, map, if◌then◌else◌, arith,
}
use netchaos.Base.Int.{ℤ, pos, negsuc}
use netchaos.Base.Float.{Float64, lt_float, of_53_bits}
use netchaos.Rand.{
  Stream, Side, FaultKind, loss, duplicate, word, next, domain_tag, big_endian, side_byte,
  kind_byte, stream_input, derive_stream,
}
use netchaos.Rand.Bernoulli.{bernoulli_lem}
use netchaos.Peers.{PairKey}
use netchaos.Faults.{Shared, FaultEvent, is_partitioned}
use netchaos.Pipe.State.{Pipe}
use netchaos.Pipe.Evaluate.{current, trial, install_fault_policy}
use netchaos.Pipe.Ops.{new_pipe}
use netchaos.Pipe.Draws.{advance}
use netchaos.Pipe.Determinism.{Run, Decided, decided, predicted, Run-predicted}
use netchaos.Pipe.Growth.{growths, sizes, sent_sizes, growths-predicted}
use netchaos.Network.{Network}
use netchaos.Dial.Connection.{seed_bits, network_policy, new_recorder, stream_of, direction_pipe}

-- The 64-bit pattern of an int64: the number below 2 ^ 64 that is the same modulo 2 ^ 64.
abbrev pub HasPattern : ℤ → ℕ → Type 0
HasPattern (pos n) bits = (bits < word) × (bits ≡ n % word)
HasPattern (negsuc n) bits = (bits < word) × ((bits + suc n) % word ≡ 0)

seed_bits-HasPattern : (seed : ℤ) → HasPattern seed (seed_bits seed)
unfolding seed_bits
seed_bits-HasPattern (pos n) = (omega arith, refl)
seed_bits-HasPattern (negsuc n) = (omega arith, omega arith)

-- The 22 bytes whose hash is the key of a stream.
abbrev pub key_bytes : ℕ → ℕ → Side → FaultKind → List ℕ
key_bytes seed ordinal side kind =
    domain_tag
    ++ (big_endian seed ++ (big_endian ordinal ++ (side_byte side ∷ kind_byte kind ∷ [])))

-- A fault that is enabled strikes if the top 53 bits of the draw, as a fraction of 2 ^ 53, lie below
-- the rate.
abbrev pub struck : Bool → Float64 → ℕ → Bool
struck enabled rate draw = enabled && lt_float (of_53_bits (draw / 2 ^ 11)) rate

abbrev pub counted : Bool → ℕ → ℕ
counted enabled i = if enabled then suc i else i

-- What becomes of the units, given the draws for loss and for duplication and the numbers of draws
-- taken so far.
unfoldable pub foreseen : PairKey → List Shared → (ℕ → ℕ) → ℕ → (ℕ → ℕ) → ℕ → List Decided
foreseen pair [] lost i doubled j = []
foreseen pair (n ∷ us) lost i doubled j =
    let c = n.faults in
    let cut = foreseen pair us lost i doubled j in
    let uncut =
      foreseen pair us lost (counted c.loss_enabled i) doubled (counted c.duplicate_enabled j) in
    if is_partitioned n pair
    then record { partitioned = true; dropped = false; duplicated = false } ∷ cut
    else record {
      partitioned = false;
      dropped = struck c.loss_enabled c.loss_rate (lost i);
      duplicated = struck c.duplicate_enabled c.duplicate_rate (doubled j);
    }
      ∷ uncut

abbrev stream_at : (ℕ → ℕ) → ℕ → Stream
stream_at draws i = record { draws = draws; taken = i }

trial-struck :
    (enabled : Bool) (rate : Float64) (draws : ℕ → ℕ) (i : ℕ)
    → draws i < word
    → struck enabled rate (draws i) ≡ (trial enabled rate (stream_at draws i)).0
unfolding trial
trial-struck true rate draws i h =
    sym (ap (λ (r : Bool × Stream). r.0) (bernoulli_lem rate (stream_at draws i) h))
trial-struck false rate draws i h = refl

advance-counted :
    (enabled : Bool) (draws : ℕ → ℕ) (i : ℕ)
    → stream_at draws (counted enabled i) ≡ advance enabled (stream_at draws i)
unfolding next
advance-counted true draws i = refl
advance-counted false draws i = refl

foreseen-predicted :
    (pair : PairKey) (us : List Shared) (lost doubled : ℕ → ℕ) (i j : ℕ)
    → ((k : ℕ) → lost k < word)
    → ((k : ℕ) → doubled k < word)
    → predicted (network_policy pair) us (stream_at lost i) (stream_at doubled j)
      ≡ foreseen pair us lost i doubled j
unfolding predicted foreseen network_policy current
foreseen-predicted pair [] lost doubled i j hl hd = refl
foreseen-predicted pair (n ∷ us) lost doubled i j hl hd =
    let c = n.faults in
    let cut = foreseen-predicted pair us lost doubled i j hl hd in
    let dropped = trial-struck c.loss_enabled c.loss_rate lost i (hl i) in
    let twice = trial-struck c.duplicate_enabled c.duplicate_rate doubled j (hd j) in
    let one = advance-counted c.loss_enabled lost i in
    let other = advance-counted c.duplicate_enabled doubled j in
    let uncut : predicted (network_policy pair) us (advance c.loss_enabled (stream_at lost i))
          (advance c.duplicate_enabled (stream_at doubled j))
        ≡ foreseen pair us lost (counted c.loss_enabled i) doubled (counted c.duplicate_enabled j) =
      (λ k. predicted (network_policy pair) us (sym one k) (sym other k))
      ∙ foreseen-predicted pair us lost doubled (counted c.loss_enabled i)
          (counted c.duplicate_enabled j) hl hd in
    (λ k.
      if is_partitioned n pair
      then record { partitioned = true; dropped = false; duplicated = false } ∷ cut k
      else record { partitioned = false; dropped = sym dropped k; duplicated = sym twice k }
        ∷ uncut k)

-- What becomes of the units that a direction of a connection takes in, on a Network that records,
-- follows from the seed, the connection's ordinal, the side, and the loss and duplication settings
-- and partitions that each unit saw. A unit on a partitioned pair is neither dropped nor duplicated
-- by a draw, and nothing of it goes out; else each of the two faults that is enabled strikes exactly
-- if the next draw of its own sequence lies below the rate. The sequences are those that ChaCha8
-- generates from the SHA-256 hash of the 22 bytes of the tag, the 64-bit pattern of the seed, the
-- ordinal, the side and the fault. The trace says so, with one event for each unit, in order; and so
-- do the pipe's bytes: a unit that is cut off or dropped adds none, one that is duplicated twice its
-- size, and any other its size. The bytes and the instants of the writes, the other settings, and
-- the reads, timers and closes in between have no part in which faults strike.
pub direction_pipe-Run :
    (sum256 : List ℕ → List ℕ) (chacha8 : List ℕ → ℕ → ℕ) (n : Network) (ordinal : ℕ) (side : Side)
    (pair : PairKey) (us : List Shared) (r : Pipe)
    → ((key : List ℕ) (i : ℕ) → chacha8 key i < word)
    → n.trace_enabled ≡ true
    → (run : Run us (direction_pipe sum256 chacha8 n ordinal side pair) r)
    → (seed : ℕ) × HasPattern n.seed seed
      × (added : List FaultEvent) × (r.trace ≡ some added)
      × (map decided added
          ≡ foreseen pair us
              (chacha8 (sum256 (key_bytes seed ordinal side loss)))
              0
              (chacha8 (sum256 (key_bytes seed ordinal side duplicate)))
              0)
      × (growths run ≡ sent_sizes (map decided added) (sizes run))
unfolding direction_pipe install_fault_policy new_pipe new_recorder stream_of derive_stream
    stream_input
direction_pipe-Run sum256 chacha8 n ordinal side pair us r words enabled run =
    let (added, traced, same) =
      Run-predicted (network_policy pair) [] run refl
        (ap (λ b. if b then some [] else none) enabled) in
    let seed = seed_bits n.seed in
    (
      seed,
      seed_bits-HasPattern n.seed,
      added,
      traced,
      same
          ∙ foreseen-predicted pair us (chacha8 (sum256 (key_bytes seed ordinal side loss)))
              (chacha8 (sum256 (key_bytes seed ordinal side duplicate))) 0 0
              (words (sum256 (key_bytes seed ordinal side loss)))
              (words (sum256 (key_bytes seed ordinal side duplicate))),
      growths-predicted (network_policy pair) run refl
          ∙ ap (λ ds. sent_sizes ds (sizes run)) (sym same),
    )
