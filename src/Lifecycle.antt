-- ===== src/Lifecycle.antt =====
-- backend/lifecycle: how the process ends.
pub mod Drain
