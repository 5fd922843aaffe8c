-- ===== src/Recovery.antt =====
-- backend/recovery: dropping the machines' shares to read-only while writes could be lost.
pub mod Failover
