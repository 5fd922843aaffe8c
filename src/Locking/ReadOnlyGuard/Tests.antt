-- ===== src/Locking/ReadOnlyGuard/Tests.antt =====
-- A run of backend/locking/read-only-guard.ts.
use cnc_network_bridge.Base.{true, false, none, some, if◌then◌else◌, str_eq}
use cnc_network_bridge.Locking.ReadOnlyGuard.{Mode, Files}

abbrev program : Mode
program = record { user_write = true; group_write = true; other_write = false; other_bits = 292 }

abbrev share : Files
share = λ p. if str_eq p "/mnt/s/A.H" then some program else none
