-- ===== src/Sync.antt =====
-- backend/sync: the parts that decide what is copied where, and when.
pub mod Diff
pub mod EchoGuard
pub mod TransferQueue
pub mod Policies
pub mod TokenBucket
pub mod Orchestrator
