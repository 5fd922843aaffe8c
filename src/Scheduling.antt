-- ===== src/Scheduling.antt =====
-- backend/scheduling: when which job runs.
pub mod Jobs
pub mod Scheduler
mod Tests
