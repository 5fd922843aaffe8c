-- ===== src/Locking/LockManager/Projection.antt =====
-- The state of backend/locking/lock-manager.ts and what it meets outside, and the projection of a new
-- lock onto the server: `projectAndPersist`, `takeWritePermission`, and of byte-range.ts the holders.
use cnc_network_bridge.Base.{
  ℕ, String, Bool, true, false, not, Option, none, some, List, [], ◌∷◌, ◌++◌, ◌==◌, if◌then◌else◌,
  ◌<>◌, filter_by, any_of,
}
use cnc_network_bridge.Locking.ReadOnlyGuard.{Files, apply_read_only}
use cnc_network_bridge.Locking.LockManager.Rows.{
  LockOrigin, ServerLockKind, no_projection, byte_range, LockRow, Update, set_projected,
  set_read_only, set_row,
}

pub record LockingConfig : Type 0 where
  pub enabled : Bool
  pub machine_lock_ttl_s : ℕ
  pub server_projection : ServerLockKind

-- What a call finds outside: the table of shares, the mounts, and what the operating system answers.
pub record Outside : Type 0 where
  pub mount_of : ℕ → Option String
  pub is_mounted : String → Bool
  -- `posix.join`
  pub join : String → String → String
  -- Why `flock` could not be started for a lock, if it could not.
  pub spawn_error : ℕ → Option String
  pub chmod_error : String → Option String
  -- Why the marker of a path under a mount could not be written, or removed.
  pub write_error : String → String → Option String
  pub remove_error : String → String → Option String

pub data LockEventAction : Type 0 where
  acquired released expired force_released : LockEventAction

pub record LockEvent : Type 0 where
  pub action : LockEventAction
  pub lock : LockRow

pub record Store : Type 0 where
  pub rows : List LockRow
  -- The ids under which `flock` processes run.
  pub holders : List ℕ
  -- The marked files, by mount point and path.
  pub markers : List (String × String)
  pub files : Files
  pub events : List LockEvent

-- The errors of the module, `LockError`, `LockHeldError`, `LockNotFoundError`.
pub data LockFailure : Type 0 where
  disabled : LockFailure
  held : LockRow → LockFailure
  not_found : ℕ → LockFailure

pub data Result : Type 0 where
  ok : Store → LockRow → Result
  err : LockFailure → Result

pub record AcquireLockInput : Type 0 where
  pub share_id : ℕ
  pub rel_path : String
  pub origin : LockOrigin
  pub owner_label : Option String
  pub machine_ip : Option String
  pub smb_pid : Option ℕ
  pub smb_session_id : Option String
  -- `none` is "not given", `some none` is null.
  pub ttl_seconds : Option (Option ℕ)
  pub note : Option String

abbrev pub change : ℕ → Update → Store → Store
change id u s = record s { rows = set_row id u s.rows }

-- The end of `ByteRangeLocker.acquire`: the holder runs, or the error is returned.
abbrev pub start_holder : Option String → ℕ → Store → Store × Option String
start_holder (some e) id s = (s, some e)
start_holder none id s = (record s { holders = s.holders ++ id ∷ [] }, none)

-- `ByteRangeLocker.acquire`: a lock that is held already is fine.
unfoldable pub hold : Outside → ℕ → Store → Store × Option String
hold out id s =
    if any_of (λ h. h == id) s.holders then (s, none) else start_holder (out.spawn_error id) id s

-- `ByteRangeLocker.release`
unfoldable pub let_go : ℕ → Store → Store
let_go id s = record s { holders = filter_by (λ h. not (h == id)) s.holders }

unfoldable pub take_write_permission : Outside → ℕ → String → Store → Store
unfolding apply_read_only
take_write_permission out id target s =
    let (files, guard) = apply_read_only out.chmod_error target s.files in
    let taken = record s { files = files; rows = set_row id (set_read_only true) s.rows } in
    if guard.applied then taken else record s { files = files }

abbrev pub marker_written : Option String → String → LockRow → Store → Store
marker_written none mount row s = record s {
  markers = (mount, row.rel_path) ∷ s.markers;
  rows = set_row row.id (set_projected true none) s.rows;
}
marker_written (some e) mount row s = change row.id (set_projected false (some e)) s

unfoldable pub add_marker : Outside → String → LockRow → Store → Store
add_marker out mount row s = marker_written (out.write_error mount row.rel_path) mount row s

abbrev pub after_hold : Option String → Outside → String → LockRow → Store → Store
after_hold (some e) out mount row s = change row.id (set_projected false (some e)) s
after_hold none out mount row s =
    add_marker out mount row (take_write_permission out row.id (out.join mount row.rel_path) s)

-- The share is mounted: the byte-range lock where it is asked for, then the marker.
unfoldable pub project_mounted : Outside → String → LockRow → ServerLockKind → Store → Store
unfolding hold take_write_permission add_marker
project_mounted out mount row byte_range s =
    let (s', error) = hold out row.id s in after_hold error out mount row s'
project_mounted out mount row kind s = add_marker out mount row s

unfoldable pub project_on : Outside → Option String → LockRow → ServerLockKind → Store → Store
unfolding project_mounted
project_on out none row kind s =
    change row.id (set_projected false (some "share has no known mount point")) s
project_on out (some mount) row kind s =
    if out.is_mounted mount
    then project_mounted out mount row kind s
    else change row.id
        (set_projected false
          (some (mount <> " is not a mounted share; the marker was not written")))
        s

unfoldable pub project_and_persist : Outside → LockRow → ServerLockKind → Store → Store
unfolding project_on
project_and_persist out row no_projection s = s
project_and_persist out row kind s = project_on out (out.mount_of row.share_id) row kind s
