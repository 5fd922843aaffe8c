-- ===== src/Sync/Orchestrator.antt =====
-- backend/sync/orchestrator.ts: what happens to one share. The tasks of a cycle are resumed in any order,
-- each from one await to the next, so that a run is a list of events: the answers of the ports, and the
-- calls from outside. A path is listed once in a cycle. The queue is left out, since it only delays the
-- start of a task, and so are the events that listeners receive.
pub mod Types
pub mod Breaker
pub mod Reconcile
pub mod Cycle
pub mod Trace
pub mod Moves
pub mod Commit
pub mod Probe
pub mod Halted
pub mod Failures
mod Tests
