-- ===== src/Locking/ScheduleWindows/Tests.antt =====
-- Runs of the lock and unlock windows, and their theorems at inputs where their hypotheses hold.
use cnc_network_bridge.Base.{
  any_of, ◌&&◌, false, ℕ, String, ◌≡◌, refl, Bool, true, false, Option, none, some, List, [], ◌∷◌,
  ◌<>◌,
}
use cnc_network_bridge.Scheduling.Jobs.{ScheduleTarget, JobContext, Trigger}
use cnc_network_bridge.Locking.LockManager.Rows.{
  is_active, LockRow, LockOrigin, sidecar, find_active, set_row, new_id,
}
use cnc_network_bridge.Locking.LockManager.Projection.{LockingConfig, Outside, Store}
use cnc_network_bridge.Locking.LockManager.{acquire, insert_lock}
use cnc_network_bridge.Locking.LockManager.Still.{Still, is_same}
use cnc_network_bridge.Locking.ScheduleWindows.{
  Tables, handle_lock_window, handle_unlock_window, lock_paths,
}
use cnc_network_bridge.Locking.ScheduleWindows.Lock.{IsHeld, window_locks}
use cnc_network_bridge.Locking.ScheduleWindows.Unlock.{by_schedule, window_unlocks}

abbrev config : LockingConfig
config = record { enabled = true; machine_lock_ttl_s = 60; server_projection = sidecar }

-- The share of id 1 is mounted.
abbrev up : Outside
up = record {
  mount_of = λ k. some "/mnt/s";
  is_mounted = λ m. true;
  join = λ m p. m <> p;
  spawn_error = λ id. none;
  chmod_error = λ p. none;
  write_error = λ m p. none;
  remove_error = λ m p. none;
}

abbrev lock_on : ℕ → String → LockOrigin → LockRow
lock_on id path origin = record {
  id = id;
  share_id = 1;
  rel_path = path;
  origin = origin;
  owner_label = none;
  machine_ip = none;
  smb_pid = none;
  smb_session_id = none;
  server_lock_kind = sidecar;
  server_lock_ok = true;
  server_lock_error = none;
  server_read_only_applied = false;
  acquired_at = 10;
  expires_at = none;
  released_at = none;
  note = none;
}

abbrev store_of : List LockRow → Store
store_of rows = record { rows = rows; holders = []; markers = []; files = λ p. none; events = [] }

-- A machine holds one of the two paths.
abbrev busy : Store
busy = store_of (lock_on 4 "/A.H" LockOrigin.machine ∷ [])

abbrev tables : Tables
tables = record { shares = 1 ∷ []; file_index = (1, "/A.H") ∷ (1, "/B.H") ∷ (2, "/C.H") ∷ [] }

abbrev night : ScheduleTarget
night = record { share_id = some 1; path_glob = some "**"; duration_minutes = some 30 }

abbrev ctx : JobContext
ctx = record {
  trigger = Trigger.cron;
  schedule_id = 7;
  schedule_name = "night";
  target = some night;
  fired_at = 100;
}

abbrev matcher : String → String → Bool
matcher glob path = true

expiry_of : Option LockRow → Option ℕ
expiry_of none = none
expiry_of (some r) = r.expires_at

-- The free path is locked for half an hour.
locked_for :
    expiry_of (
      find_active 1 "/B.H" (handle_lock_window matcher config up tables ctx (λ p. 100) busy).0.rows)
    ≡ some 1900
unfolding handle_lock_window lock_paths acquire insert_lock find_active set_row new_id expiry_of
locked_for = refl

window_locks_example :
    IsHeld 1 "/B.H" (handle_lock_window matcher config up tables ctx (λ p. 100) busy).0.rows
    × Still
        (lock_on 4 "/A.H" LockOrigin.machine)
        (handle_lock_window matcher config up tables ctx (λ p. 100) busy).0.rows
unfolding is_same
window_locks_example =
    window_locks matcher config up tables ctx (λ p. 100) busy night 1 "**" "/B.H"
      (lock_on 4 "/A.H" LockOrigin.machine) refl refl refl refl refl refl refl refl

-- A lock of a machine and one of a schedule.
abbrev both : Store
both = store_of (lock_on 4 "/A.H" LockOrigin.machine ∷ lock_on 5 "/B.H" LockOrigin.schedule ∷ [])

window_unlocks_example :
    (any_of
        (λ (r : LockRow). is_active r && by_schedule 1 r)
        (handle_unlock_window up tables ctx (λ id. 200) both).0.rows
      ≡ false)
    × Still
        (lock_on 4 "/A.H" LockOrigin.machine)
        (handle_unlock_window up tables ctx (λ id. 200) both).0.rows
unfolding is_same
window_unlocks_example =
    window_unlocks up tables ctx (λ id. 200) both night 1 (lock_on 4 "/A.H" LockOrigin.machine) refl
      refl refl refl refl
