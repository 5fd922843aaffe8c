-- ===== src/Lib.antt =====
-- The bridge of CNC machines to a file server, in src/backend: it keeps a cache of the server's shares
-- that the machines read and write, and syncs the two.
--
-- The parts, and how they interact. The orchestrator of a share (src/backend/sync/orchestrator.ts)
-- runs cycles. For each path the diff engine (src/backend/sync/diff-engine.ts) compares the cache,
-- the server and what both last agreed on, and says what to do; the orchestrator has the capture
-- made that the verdict asks for, then the transfer, and records what both sides agree on after it;
-- failures make a path wait and open its circuit breaker. The transfers go through a queue
-- (src/backend/sync/throttle.ts), which bounds how many run, and a token bucket (the same file)
-- bounds their bytes; the policies (src/backend/sync/policies.ts) say which paths go first and which
-- limit holds when. What the bridge writes itself must not come back as a change: the echo guard
-- (src/backend/sync/echo-guard.ts) drops such events, and stops a path that is synced over and over.
-- The failover controller (src/backend/recovery/failover.ts) decides from observations of the
-- server, the disk and the engine when writes are refused, which reaches the diff engine as
-- `serverOffline` and `readOnly`. The lock manager (src/backend/locking/lock-manager.ts) keeps the
-- locks on files, which reach the diff engine as `locked`, and projects them onto the server
-- (src/backend/locking/read-only-guard.ts, byte-range.ts). A conflict can be recorded with the
-- version of its loser (src/backend/locking/conflict-resolver.ts). What a verdict captures becomes a
-- version: the versioning engine (src/backend/versioning/versioning-engine.ts) queues the capture, the
-- version store (src/backend/versioning/version-store.ts) keeps its row, and its content is a blob at
-- its digest (src/backend/versioning/blob-store.ts). The retention policy
-- (src/backend/versioning/retention.ts) says which versions stay, and the cleanup
-- (src/backend/versioning/cleanup.ts) deletes the others. Callers over HTTP
-- are bounded by src/backend/security/rate-limit.ts. The scheduler (src/backend/scheduling/scheduler.ts)
-- runs jobs by the rows of a table; two of them lock and unlock paths of a share
-- (src/backend/locking/schedule-windows.ts), through the lock manager. On shutdown the work in flight is waited for
-- (src/backend/lifecycle/drain.ts).
--
-- Which file models which part:
--   Base               what the TypeScript uses of its language: tests, options, lists, maps, text
--   Sync/Diff          diff-engine.ts: Types, Names (`validateHeidenhainName`), Compare (`sameContent`,
--                      `classifySide`, `needsCapture`, `destroysData`), Resolve (`resolveConflict`),
--                      and in Diff itself `decideCore`, `applyAvailabilityOverrides`, `decide`
--   Sync/EchoGuard     echo-guard.ts: the class as a record, its methods as functions on it
--   Sync/TransferQueue throttle.ts: `TransferQueue`, `concurrencyFor`
--   Sync/Policies      policies.ts: Times (the bandwidth windows), Rules (`normalize`, `compileRule`),
--                      and in Policies itself `SyncPolicyEngine`
--   Sync/TokenBucket   throttle.ts: `TokenBucket`, `kbpsToBytesPerSecond`
--   Sync/Orchestrator  orchestrator.ts: Types (the state), Breaker (the circuit breaker), Reconcile
--                      (`reconcile` from one await to the next, and the commits), Cycle (`runCycle`,
--                      pause, resume, `fullResync`, and the runs)
--   Recovery/Failover  failover.ts: `FailoverController`; what it tells others is a list of effects
--   Versioning/Retention  retention.ts: `planRetention`
--   Versioning/BlobStore  blob-store.ts: `BlobStore`, its files by their digest and kind
--   Versioning/VersionStore  version-store.ts: Rows (the table, and `delete`), Paths (`resolveWithinRoot`),
--                      and in VersionStore itself `capture`, `captureBuffer`, `openContent`, `restore`
--   Versioning/Cleanup    cleanup.ts: `VersionCleanup`, `formatBytes`; its History is the calls of the
--                      version store and of the cleanup in any order, with crashes between them
--   Versioning/Engine     versioning-engine.ts: `VersioningEngine`, and `captureVersion` of
--                      src/backend/sync/filesystem-ports.ts
--   Security/RateLimit rate-limit.ts: `SlidingWindowLimiter`, `rateLimit`
--   Locking/ReadOnlyGuard  read-only-guard.ts: `applyReadOnly`, `clearReadOnly`
--   Locking/ConflictResolver  conflict-resolver.ts: `decideWinner`, `ConflictResolver`
--   Locking/LockManager    lock-manager.ts: Rows (the table), Projection (the server's side), Restart
--                      (start and end of the process), and in LockManager itself the calls;
--                      Holders: the map from the files to the holders of their locks
--   Locking/ScheduleWindows  schedule-windows.ts: `ScheduleLockWindowManager`
--   Scheduling/Jobs    jobs.ts: what a job is given and returns, `JobRegistry`
--   Scheduling/Scheduler  scheduler.ts: Types (the state, the calls and the events), Rows (the table
--                      `schedules`), and in Scheduler itself the calls, the timers' firings and the jobs
--   Lifecycle/Drain    drain.ts: `DrainRegistry`
-- The other files of these directories hold proofs, and Tests the runs at concrete values.
--
-- State is passed on explicitly; a call takes the time that its clock reads as an argument. Times, sizes
-- and numbers of things are natural numbers, as they are whole and never negative there; where a
-- difference is taken, both sides of the test are moved so that none is below 0, or the truncation at 0
-- is that of a `Math.max` of the source. A Map is a list of keys and values in the order of insertion. A
-- class that another could change between two awaits is modelled by its calls in any order. The tasks of a
-- cycle of the orchestrator are cut at their awaits, and a run is a list of events in any order: each is
-- the answer of a port, or a call from outside. What a task does between two awaits, and the few
-- microtasks between the end of a transfer and its commit, are one step.
--
-- Loops are recursions on lists. The loop of the queue's `pump` runs in rounds, at most as many as there
-- are free places, which is enough since each round takes one. The loop of `consume` recurs on the list
-- of the times that its sleeps take.
--
-- Parameters: `toUpperCase`, the compilers of glob and regular expressions, SHA-256 and gzip,
-- whether the disk fails, what the operating system answers to a chmod, to the start of a `flock`
-- process, or to writing and removing a marker, what croner does (the next time of an expression, and
-- whether a timer stays busy once its function has returned), which shares are mounted, what the ports
-- of the orchestrator answer, and the configuration.
--
-- Not modelled: the scanning and hashing of files, the transfers, the database's SQL beyond the
-- statements on `locks`, `file_versions`, `conflicts` and `schedules`, the web server and its routes, the
-- privileged helper, Samba, the network, the monitoring, the logs and the user interface. They are I/O
-- around these parts, or stand beside them.
pub mod Base
pub mod Sync
pub mod Recovery
pub mod Versioning
pub mod Security
pub mod Locking
pub mod Lifecycle
pub mod Scheduling
