-- ===== src/Lib.antt =====
-- netchaos: a simulated network for tests, with seeded faults. A Network holds listeners and
-- connections; a connection is two crossed pipes, and every Write is one unit that goes through a
-- fixed sequence of faults (partition, loss, bandwidth, latency, corruption, duplication) before its
-- bytes become readable at the other end.
--
-- The parts, with the files of the repository that they model:
-- - Base: shared names, tests, lists, the integers of Go, and float64 as exact multiples of the least
--   subnormal.
-- - Rand (rand.go): the streams of draws; `derive_stream`, `bernoulli`, `bounded_uint64`,
--   `uniform_duration` and `corruption_site` are deriveStream and the methods of stream. SHA-256 and
--   ChaCha8 are parameters.
-- - Bandwidth (bandwidth.go): serializationDelay on 64-bit halves, where the panic of bits.Div64 is
--   `none`.
-- - Peers, Faults, Partition (partition.go, trace.go, netchaos.go): pairs of peers, the state that the
--   pipes of a Network share, Partition, Heal and the setters.
-- - Pipe (pipe.go, latency.go, faults.go): `Pipe/State` is the record and its timer, `Pipe/Evaluate`
--   the evaluator of installFaultPolicy, `Pipe/Ops` tryRead, tryWrite, close and abort.
-- - Deadline (deadline.go), Conn (conn.go, reset.go): the two ends over their pipes; a round of the
--   loops of Read and Write is one function, and the actions inside Close and Reset are single steps;
--   `Conn/Partway` has Close and Reset at any of their points.
-- - Listener (listener.go): the accept queue.
-- - Addr (addr.go): addresses, peer names and made-up names, with the functions of net and strconv
--   that they use. netip's reader and printer are parameters (`NetIp`).
-- - Book (addressing.go): the owners of addresses and the addresses of peers.
-- - Options (options.go, and the With functions of the other files): an option is data, and
--   `configure` is NewNetwork up to the validated configuration; `Options/Last` describes it from the
--   last option of each kind.
-- - Network (netchaos.go): the Network and NewNetwork; `Network/Listening` is Listen and deregister,
--   `Network/Ports` the choice of a port, `Network/Steps` Listens, Closes and dials in any order.
-- - Dial (netchaos.go): `Dial/Lookup` has the checks of DialContext, waitUnpartitioned and the choice of
--   the listener, `Dial` what follows from the claim of an accept-queue slot to the fill, and
--   `Dial/Whole` puts them together; `Dial/Connection` is newConnPairWithSeedAndTrace
--   (`Dial/Foreseen` describes its faults from the seed, `Dial/Parties` the peers of a dial),
--   `Dial/World` the dial with what it registers for Reset and Trace, and `Dial/Dialers` DialerFor.
-- - Reset (reset.go): the registry of the ends that Reset can terminate, and Reset over all
--   connections; `Reset/Running` has dials, Closes and Resets in any order, `Reset/Apart` a Reset at
--   any of its points.
-- - Trace (trace.go): the recorders of a Network, and Trace.
-- - Tests: concrete inputs.
--
-- A pipe writes to the streams and the trace of its own direction and reads the partitions and the
-- settings of the Network (`Shared`) once per unit. A connection calls the pipe under its mutex, so
-- a pipe operation is one step; what runs concurrently is a relation of steps (`Pipe/Steps`,
-- `Conn/Steps`, `Listener/Queue`, `Network/Steps`, `Reset/Running`, `Dial/Waiting`), or a list of
-- actions of one goroutine with such steps in between (`Conn/Partway`, `Reset/Apart`). A channel that
-- the code closes and replaces is the count of its replacements. Instants and durations are naturals
-- in nanoseconds; instant 0 is Go's zero time, and an instant computed from now is not cut off at
-- the end of time.Time's range.
--
-- Fuel bounds two loops: the rejection loop of boundedUint64, which the code runs until a draw is
-- kept, and the search of peerIPLocked for a free address. The definitions that need it return an
-- Option, and results below say which fuel is enough. The loop of Listen over ports makes at most
-- 57536 attempts in the code too.
--
-- A Go map is the list of its entries, the latest first. Where the code ranges over a map, the order
-- is an argument. A listener is the number of its place among all that Listen made, a connection the
-- number of its place among all that were established.
--
-- Not modelled: the texts of errors and panics and their wrapping in *net.OpError (an error is a
-- constructor here); tcpAddr and the text of an address with an IP, which are package net's; the
-- blocking loops pipe.read and pipe.write, which only tests call; and the documentation.
pub mod Base
pub mod Rand
pub mod Bandwidth
pub mod Peers
pub mod Faults
pub mod Pipe
pub mod Deadline
pub mod Addr
pub mod Conn
pub mod Book
pub mod Dial
pub mod Partition
pub mod Options
pub mod Network
pub mod Trace
pub mod Reset
pub mod Listener
pub mod Tests
