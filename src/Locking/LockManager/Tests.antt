-- ===== src/Locking/LockManager/Tests.antt =====
-- Runs of the operations of backend/locking/lock-manager.ts.
use cnc_network_bridge.Base.{
  ◌&&◌, not, is_some, any_of, String, ◌≡◌, refl, true, false, none, some, List, [], ◌∷◌, ◌<>◌,
  str_eq, if◌then◌else◌,
}
use cnc_network_bridge.Locking.ReadOnlyGuard.{Mode, apply_read_only}
use cnc_network_bridge.Locking.LockManager.Rows.{
  LockRow, LockOrigin, manual, machine, byte_range, find_active, find_active_id, set_row, new_id,
  is_on, is_active,
}
use cnc_network_bridge.Locking.LockManager.Projection.{
  LockingConfig, Outside, Store, AcquireLockInput, project_and_persist, hold, take_write_permission,
  add_marker, project_on, project_mounted, let_go,
}
use cnc_network_bridge.Locking.LockManager.{
  acquire, insert_lock, release, finish, get_active, give_write_permission_back,
}
use cnc_network_bridge.Locking.LockManager.Restart.{
  sweep_read_only_leftovers, restore_server_locks, restore_all, projected,
}
use cnc_network_bridge.Locking.LockManager.Leftovers.{sweep_unprotects}
use cnc_network_bridge.Locking.LockManager.View.{holder_in}
use cnc_network_bridge.Locking.LockManager.Holders.{promise_all, promise, no_locks}
use cnc_network_bridge.Locking.LockManager.Refines.{run_refines}
use cnc_network_bridge.Locking.ReadOnlyGuard.Effect.{could_write, is_protected}
use cnc_network_bridge.Locking.LockManager.Unique.{
  Call, acquires, releases, expires, sweeps, restarts, shuts_down, run, after, OneActive,
  run-OneActive, step,
}

abbrev config : LockingConfig
config = record { enabled = true; machine_lock_ttl_s = 60; server_projection = byte_range }

-- One share, mounted, on which everything succeeds.
abbrev up : Outside
up = record {
  mount_of = λ k. some "/mnt/s";
  is_mounted = λ m. true;
  join = λ m p. m <> p;
  spawn_error = λ id. none;
  chmod_error = λ p. none;
  write_error = λ m p. none;
  remove_error = λ m p. none;
}

abbrev down : Outside
down = record up { is_mounted = λ m. false }

abbrev file_mode : Mode
file_mode = record { user_write = true; group_write = false; other_write = false; other_bits = 420 }

abbrev empty : Store
empty = record {
  rows = [];
  holders = [];
  markers = [];
  files = λ p. if str_eq p "/mnt/s/A.H" then some file_mode else none;
  events = [];
}

abbrev input : String → LockOrigin → AcquireLockInput
input path origin = record {
  share_id = 1;
  rel_path = path;
  origin = origin;
  owner_label = none;
  machine_ip = none;
  smb_pid = none;
  smb_session_id = none;
  ttl_seconds = none;
  note = none;
}

abbrev calls : List Call
calls =
    acquires config up (input "/A.H" machine) 100
    ∷ acquires config up (input "/A.H" manual) 110
    ∷ acquires config down (input "/B.H" manual) 120
    ∷ expires down 160
    ∷ acquires config up (input "/A.H" manual) 170
    ∷ shuts_down
    ∷ restarts up
    ∷ sweeps up
    ∷ []

run-OneActive_example : OneActive (run calls empty).rows
run-OneActive_example = run-OneActive calls empty tt

run_refines_example :
    holder_in (get_active 1 "/A.H" (run calls empty)) ≡ (promise_all calls no_locks).holder 1 "/A.H"
run_refines_example = run_refines calls empty 1 "/A.H" refl

-- The lock of the machine is past its time, so that the second request by hand gets the file.
held_by_hand :
    (promise_all calls no_locks).holder 1 "/A.H"
    ≡ some (record { id = 3; origin = manual; expires_at = none })
unfolding promise_all promise
held_by_hand = refl

abbrev locked : Store
locked = after empty (acquire config up (input "/A.H" machine) 100 empty)

abbrev locked_row : LockRow
locked_row = record {
  id = 1;
  share_id = 1;
  rel_path = "/A.H";
  origin = machine;
  owner_label = none;
  machine_ip = none;
  smb_pid = none;
  smb_session_id = none;
  server_lock_kind = byte_range;
  server_lock_ok = true;
  server_lock_error = none;
  server_read_only_applied = true;
  acquired_at = 100;
  expires_at = some 160;
  released_at = none;
  note = none;
}

is_locked : find_active_id 1 locked.rows ≡ some locked_row
unfolding find_active_id acquire insert_lock project_and_persist project_on project_mounted hold
    take_write_permission add_marker set_row new_id find_active apply_read_only
is_locked = refl

-- A machine's lock ends while the share is away; the machine locks the file again, and the process restarts.
abbrev reopening : List Call
reopening =
    acquires config up (input "/A.H" machine) 100
    ∷ releases down 1 none false 110
    ∷ acquires config up (input "/A.H" machine) 120
    ∷ shuts_down
    ∷ restarts up
    ∷ []

reopened : Store
unfolding run step acquire release finish insert_lock project_and_persist project_on project_mounted
    hold take_write_permission add_marker set_row new_id find_active find_active_id let_go
    give_write_permission_back restore_server_locks restore_all projected apply_read_only
reopened = run reopening empty

reopened_file : is_protected (reopened.files "/mnt/s/A.H") ≡ true
unfolding reopened
reopened_file = refl

reopened_there : is_some (reopened.files "/mnt/s/A.H") ≡ true
unfolding reopened
reopened_there = refl

reopened_left :
    any_of
      (λ (r : LockRow). is_on 1 "/A.H" r && not (is_active r) && r.server_read_only_applied)
      reopened.rows
    ≡ true
unfolding reopened
reopened_left = refl

reopened_held : is_some (find_active 1 "/A.H" reopened.rows) ≡ true
unfolding reopened
reopened_held = refl

sweep_unprotects_example :
    (could_write ((sweep_read_only_leftovers up reopened).0.files "/mnt/s/A.H") ≡ true)
    × ((is_some (find_active 1 "/A.H" reopened.rows)
          && not (is_some (find_active 1 "/A.H" (sweep_read_only_leftovers up reopened).0.rows)))
        ≡ false)
sweep_unprotects_example =
    sweep_unprotects up 1 "/A.H" "/mnt/s" reopened refl refl refl reopened_there reopened_left
