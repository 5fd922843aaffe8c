-- ===== src/Locking/LockManager.antt =====
-- backend/locking/lock-manager.ts: the rows of the table `locks`, the holders of the byte-range locks
-- (backend/locking/byte-range.ts), the markers and the permissions on the server. A time is an
-- argument of each call. One call runs at a time, as in the process, so that nothing comes between
-- the look for an active lock and the insert; the catch for that race is not modelled. Log lines are
-- left out; the events to subscribers are kept, newest first. A `Lock` is shown by its row, which has
-- one column more.
pub mod Rows
pub mod Projection
pub mod Keeps
pub mod Restart
pub mod RestartKeeps
pub mod Leftovers
pub mod View
pub mod Ids
pub mod Reaped
pub mod Holders
pub mod Refines
pub mod Unique
pub mod Outcome
pub mod Awaited
pub mod CallKeeps
pub mod Still
pub mod Expiry
pub mod Grants
mod Tests
use cnc_network_bridge.Base.{
  ℕ, suc, ◌+◌, String, Bool, true, false, ◌&&◌, ◌||◌, not, Option, none, some, List, [], ◌∷◌, ◌++◌,
  map, ltb, leb, ◌==◌, if◌then◌else◌, ◌<>◌, str_eq, or_else, is_some, filter_by, any_of, and_then,
}
use cnc_network_bridge.Locking.ReadOnlyGuard.{Files, apply_read_only, clear_read_only}
use Rows.{
  LockOrigin, machine, manual, ServerLockKind, no_projection, sidecar, byte_range, LockRow, Update,
  set_released, set_projected, set_read_only, set_row, is_active, find_active, find_active_id,
  find_row, new_id,
}
use Projection.{
  LockingConfig, Outside, LockEventAction, LockEvent, Store, LockFailure, Result, AcquireLockInput,
  change, start_holder, hold, let_go, take_write_permission, marker_written, add_marker, after_hold,
  project_mounted, project_on, project_and_persist, acquired, expired, released, force_released,
  disabled, held, not_found, ok, err,
}

-- `get … ?? row`
abbrev pub current : LockRow → Store → LockRow
current row s = or_else (find_row row.id s.rows) row

abbrev emit : LockEventAction → LockRow → Store → Store
emit action row s = record s { events = record { action = action; lock = row } ∷ s.events }

abbrev is_machine : LockOrigin → Bool
is_machine machine = true
is_machine _ = false

abbrev pub ttl_of : LockingConfig → LockOrigin → Option (Option ℕ) → Option ℕ
ttl_of config origin (some given) = given
ttl_of config origin none = if is_machine origin then some config.machine_lock_ttl_s else none

-- `ttl === null || ttl === 0 ? null : now + ttl`
abbrev pub expiry : ℕ → Option ℕ → Option ℕ
expiry now none = none
expiry now (some ttl) = if ttl == 0 then none else some (now + ttl)

abbrev pub row_of : LockingConfig → AcquireLockInput → ℕ → List LockRow → LockRow
row_of config input now rows = record {
  id = new_id rows;
  share_id = input.share_id;
  rel_path = input.rel_path;
  origin = input.origin;
  owner_label = input.owner_label;
  machine_ip = input.machine_ip;
  smb_pid = input.smb_pid;
  smb_session_id = input.smb_session_id;
  server_lock_kind = config.server_projection;
  server_lock_ok = false;
  server_lock_error = none;
  server_read_only_applied = false;
  acquired_at = now;
  expires_at = expiry now (ttl_of config input.origin input.ttl_seconds);
  released_at = none;
  note = input.note;
}

-- The row is in the table; it is projected, read again and reported.
unfoldable pub insert_lock : Outside → LockRow → Store → Store
unfolding project_and_persist
insert_lock out row s =
    project_and_persist out row row.server_lock_kind (record s { rows = s.rows ++ row ∷ [] })

unfoldable pub acquire : LockingConfig → Outside → AcquireLockInput → ℕ → Store → Result
unfolding insert_lock
acquire config out input now s =
    let row = row_of config input now s.rows in
    let s' = insert_lock out row s in
    if config.enabled
    then elim (find_active input.share_id input.rel_path s.rows) [
      | some existing ↦ err (held existing)
      | none ↦ ok (emit acquired (current row s') s') (current row s')
    ]
    else err disabled

abbrev pub clear_at : Outside → Option String → LockRow → Store → Store
clear_at out none row s = s
clear_at out (some mount) row s =
    let (files, result) = clear_read_only out.chmod_error (out.join mount row.rel_path) s.files in
    let given = record s { files = files; rows = set_row row.id (set_read_only false) s.rows } in
    if out.is_mounted mount then (if result.ok then given else record s { files = files }) else s

unfoldable pub give_write_permission_back : Outside → LockRow → Store → Store
unfolding clear_read_only
give_write_permission_back out row s =
    if row.server_read_only_applied then clear_at out (out.mount_of row.share_id) row s else s

abbrev pub is_marked : ServerLockKind → Bool
is_marked no_projection = false
is_marked _ = true

abbrev pub unmark : Outside → Option String → LockRow → Store → Store
unmark out none row s = s
unmark out (some mount) row s =
    if out.is_mounted mount && not (is_some (out.remove_error mount row.rel_path))
    then record s {
      markers =
          filter_by (λ (m : String × String). not (str_eq m.0 mount && str_eq m.1 row.rel_path))
            s.markers;
    }
    else s

-- `row` is the row as it was read; the flag of the permission is read from it.
pub finish : Outside → LockRow → LockEventAction → Option String → ℕ → Store → Store
unfolding let_go give_write_permission_back
finish out row action reason now s =
    let ended = let_go row.id (change row.id (set_released now reason) s) in
    let given = give_write_permission_back out row ended in
    let unmarked =
      if is_marked row.server_lock_kind
      then unmark out (out.mount_of row.share_id) row given
      else given in
    emit action (current (record row { released_at = some now }) unmarked) unmarked

unfoldable pub release : Outside → ℕ → Option String → Bool → ℕ → Store → Result
unfolding finish
release out id reason forced now s = elim (find_active_id id s.rows) [
  | none ↦ err (not_found id)
  | some row ↦
      let s' = finish out row (if forced then force_released else released) reason now s in
      ok s' (current (record row { released_at = some now }) s')
]

abbrev pub has_passed : ℕ → Option ℕ → Bool
has_passed now none = false
has_passed now (some at) = leb at now

-- The rows that `expireStale` selects.
unfoldable pub stale : ℕ → List LockRow → List LockRow
stale now rows = filter_by (λ r. is_active r && has_passed now r.expires_at) rows

unfoldable pub finish_all : Outside → ℕ → List LockRow → Store → Store
unfolding finish
finish_all out now [] s = s
finish_all out now (r ∷ rs) s =
    finish_all out now rs (finish out r expired (some "TTL exceeded") now s)

pub expire_stale : Outside → ℕ → Store → Store
unfolding finish_all stale
expire_stale out now s = finish_all out now (stale now s.rows) s

unfoldable pub get_active : ℕ → String → Store → Option LockRow
get_active share_id rel_path s = find_active share_id rel_path s.rows

-- `createManual`, with the request's fields.
pub create_manual :
    LockingConfig → Outside → ℕ → String → Option ℕ → Option String → ℕ → Store → Result
create_manual config out share_id rel_path ttl note now s =
    acquire config out
      (record {
        share_id = share_id;
        rel_path = rel_path;
        origin = manual;
        owner_label = none;
        machine_ip = none;
        smb_pid = none;
        smb_session_id = none;
        ttl_seconds = some ttl;
        note = note;
      })
      now s
