-- ===== src/Locking/LockManager/Restart.antt =====
-- backend/locking/lock-manager.ts: what is done at the start and at the end of the process, and when a
-- holder of a byte-range lock is lost.
use cnc_network_bridge.Base.{
  ℕ, suc, String, Bool, true, false, ◌&&◌, not, Option, none, some, List, [], ◌∷◌, if◌then◌else◌,
  any_of, ◌==◌, filter_by,
}
use cnc_network_bridge.Locking.LockManager.Rows.{
  LockRow, ServerLockKind, byte_range, set_projected, set_lost, is_active, find_row,
}
use cnc_network_bridge.Locking.LockManager.Projection.{
  Outside, Store, change, hold, let_go, take_write_permission,
}
use cnc_network_bridge.Locking.LockManager.{give_write_permission_back}

unfoldable pub record_projection_loss : ℕ → String → Store → Store
record_projection_loss id reason s = change id (set_lost (some reason)) s

-- A holder exits that was not released: it is forgotten, and the loss is recorded.
unfoldable pub lose_holder : ℕ → String → Store → Store
unfolding let_go record_projection_loss
lose_holder id reason s =
    if any_of (λ h. h == id) s.holders then record_projection_loss id reason (let_go id s) else s

unfoldable pub leftovers : List LockRow → List LockRow
leftovers rows = filter_by (λ r. not (is_active r) && r.server_read_only_applied) rows

-- `after?.server_read_only_applied === 0`
abbrev is_given_back : Option LockRow → Bool
is_given_back none = false
is_given_back (some r) = not r.server_read_only_applied

-- The store, and how many were cleared.
unfoldable pub sweep_all : Outside → List LockRow → Store → Store × ℕ
sweep_all out [] s = (s, 0)
sweep_all out (row ∷ rows) s =
    let s' = give_write_permission_back out row s in
    let (end, cleared) = sweep_all out rows s' in
    (
      end,
      (if row.server_read_only_applied && is_given_back (find_row row.id s'.rows)
          then suc cleared
          else cleared),
    )

unfoldable pub sweep_read_only_leftovers : Outside → Store → Store × ℕ
sweep_read_only_leftovers out s = sweep_all out (leftovers s.rows) s

abbrev is_byte_range : ServerLockKind → Bool
is_byte_range byte_range = true
is_byte_range _ = false

unfoldable pub projected : List LockRow → List LockRow
projected rows = filter_by (λ r. is_active r && is_byte_range r.server_lock_kind) rows

-- What is done with a row once its lock was asked for again.
abbrev pub retaken : Option String → Outside → String → LockRow → Store → Store × Bool
retaken none out mount row s = (
  take_write_permission out row.id (out.join mount row.rel_path)
      (change row.id (set_projected true none) s),
  true,
)
retaken (some e) out mount row s = (record_projection_loss row.id e s, false)

abbrev pub restore_on : Option String → Outside → LockRow → Store → Store × Bool
restore_on none out row s =
    (record_projection_loss row.id "the share was not mounted when the bridge started" s, false)
restore_on (some mount) out row s =
    let (held, error) = hold out row.id s in
    if out.is_mounted mount then retaken error out mount row held else (
      record_projection_loss row.id "the share was not mounted when the bridge started" s,
      false,
    )

-- The store, with how many locks were restored and how many were not.
unfoldable pub restore_all : Outside → List LockRow → Store → Store × (ℕ × ℕ)
restore_all out [] s = (s, (0, 0))
restore_all out (row ∷ rows) s =
    let (s', ok) = restore_on (out.mount_of row.share_id) out row s in
    let (end, (restored, failed)) = restore_all out rows s' in
    (end, (if ok then (suc restored, failed) else (restored, suc failed)))

unfoldable pub restore_server_locks : Outside → Store → Store × (ℕ × ℕ)
restore_server_locks out s = restore_all out (projected s.rows) s

-- `ByteRangeLocker.releaseAll`
abbrev pub shutdown : Store → Store
shutdown s = record s { holders = [] }
