-- ===== src/Pipe.antt =====
-- pipe.go and latency.go: one direction of a connection. `Pipe.Ops` has its operations,
-- `Pipe.Evaluate` the fault evaluator of faults.go.
pub mod State
pub mod Evaluate
pub mod Ops
pub mod Reading
pub mod Invariant
pub mod Queueing
pub mod Rules
pub mod Admission
pub mod Draws
pub mod Stream
pub mod Writing
pub mod Timing
pub mod Tracing
pub mod Determinism
pub mod Growth
pub mod Steps
pub mod Wakeups
pub mod Ends
pub mod Ending
