-- ===== src/Pipe/Ops.antt =====
-- tryRead, tryWrite, close and abort of pipe.go.
use netchaos.Base.{
  ℕ, zero, suc, ◌+◌, ◌-◌, true, false, ◌&&◌, ◌||◌, Option, none, some, List, [], ◌∷◌, ◌++◌, ltb,
  leb, ◌==◌, if◌then◌else◌, ◌>>=◌, length, take, drop,
}
use netchaos.Rand.{Stream}
use netchaos.Peers.{PairKey}
use netchaos.Faults.{FaultEvent, Shared, is_partitioned}
use netchaos.Pipe.State.{Pipe, Deliver, pass_through, evaluator, broadcast, is_nil}
use netchaos.Pipe.Evaluate.{evaluate}

-- A channel to wait on, by its count: the pipe's own, or the Network's partNotify.
pub data Wait : Type 0 where
  on_pipe : ℕ → Wait
  on_partition : ℕ → Wait

-- The answers of tryRead: (n, nil, nil) with the bytes copied, (0, nil, io.EOF), (0, ch, nil).
pub data ReadResult : Type 0 where
  got : List ℕ → ReadResult
  eof : ReadResult
  read_wait : Wait → ReadResult

-- Of tryWrite: (n, nil, nil), (0, nil, io.ErrClosedPipe), (0, ch, nil).
pub data WriteResult : Type 0 where
  wrote : ℕ → WriteResult
  closed_pipe : WriteResult
  write_wait : Wait → WriteResult

-- newPipe. The streams, nil there, are set before the first unit is evaluated.
unfoldable pub new_pipe :
    ℕ → PairKey → Stream → Stream → Stream → Stream → Option (List FaultEvent) → Pipe
new_pipe bound pair loss latency duplicate corrupt trace = record {
  readable = [];
  buf_bytes = 0;
  closed = false;
  read_closed = false;
  eof_seen = false;
  notify = 0;
  bound = bound;
  deliver = pass_through;
  has_network = false;
  partition_pair = pair;
  loss = loss;
  latency = latency;
  duplicate = duplicate;
  corrupt = corrupt;
  trace = trace;
  pending = [];
  timer = none;
  busy_until = 0;
  arms = 0;
}

-- The copy loop: what fits in the room, and the payloads left.
unfoldable pub consume : ℕ → List (List ℕ) → List ℕ × List (List ℕ)
consume room [] = ([], [])
consume zero (c ∷ cs) = ([], c ∷ cs)
consume (suc r) (c ∷ cs) =
    let (out, rest) = consume (suc r - length c) cs in
    if leb (length c) (suc r) then (c ++ out, rest) else (take (suc r) c, drop (suc r) c ∷ cs)

unfoldable pub at_end : Shared → Pipe → ReadResult × Pipe
at_end n p =
    if p.closed && is_nil p.pending
    then (if p.eof_seen
        then (eof, p)
        else if p.has_network && is_partitioned n p.partition_pair
        then (read_wait (on_partition n.part_notify), p)
        else (eof, record p { eof_seen = true }))
    else (read_wait (on_pipe p.notify), p)

unfoldable pub drain : Shared → ℕ → Pipe → ReadResult × Pipe
unfolding broadcast
drain n room p =
    let (out, rest) = consume room p.readable in
    let q = broadcast (record p { readable = rest; buf_bytes = p.buf_bytes - length out }) in
    if ltb 0 (length out) || room == 0 then (got out, q) else at_end n q

-- `room` is len(b).
unfoldable pub try_read : Shared → ℕ → Pipe → ReadResult × Pipe
try_read n room p =
    if p.read_closed then (eof, p) else if is_nil p.readable then at_end n p else drain n room p

unfoldable pub pass_through_deliver : List ℕ → Pipe → Pipe
unfolding broadcast
pass_through_deliver bytes p = broadcast (record p { readable = p.readable ++ bytes ∷ [] })

unfoldable pub run_deliver : ℕ → Shared → ℕ → Deliver → List ℕ → Pipe → Option Pipe
unfolding pass_through_deliver
run_deliver fuel n now pass_through bytes p = some (pass_through_deliver bytes p)
run_deliver fuel n now (evaluator fp) bytes p = evaluate fuel n now fp bytes p

-- The admission of a unit: its bytes are accounted for, then it is delivered.
unfoldable pub admit : ℕ → Shared → ℕ → List ℕ → Pipe → Option Pipe
unfolding run_deliver
admit fuel n now bytes p =
    run_deliver fuel n now p.deliver bytes (record p { buf_bytes = p.buf_bytes + length bytes })

unfoldable pub try_write : ℕ → Shared → ℕ → List ℕ → Pipe → Option (WriteResult × Pipe)
try_write fuel n now bytes p =
    if p.closed || p.read_closed
    then some (closed_pipe, p)
    else if p.buf_bytes == 0 || leb (p.buf_bytes + length bytes) p.bound
    then (admit fuel n now bytes p >>= λ q. some (wrote (length bytes), q))
    else some (write_wait (on_pipe p.notify), p)

unfoldable pub close : Pipe → Pipe
unfolding broadcast
close p = if p.closed then p else broadcast (record p { closed = true })

unfoldable pub abort : Pipe → Pipe
unfolding broadcast
abort p =
    if p.read_closed
    then p
    else broadcast (record p {
      read_closed = true;
      closed = true;
      timer = none;
      pending = [];
      readable = [];
      buf_bytes = 0;
    })
