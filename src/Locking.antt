-- ===== src/Locking.antt =====
-- backend/locking: locks on files, and their projection onto the server's share.
pub mod ReadOnlyGuard
pub mod LockManager
pub mod ConflictResolver
pub mod ScheduleWindows
