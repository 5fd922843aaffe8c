-- ===== src/Locking/LockManager/Rows.antt =====
-- The rows of the table `locks` of backend/locking/lock-manager.ts, and the statements on them.
use cnc_network_bridge.Base.{
  ℕ, suc, max, String, Bool, false, ◌&&◌, Option, none, some, List, [], ◌∷◌, ◌==◌, if◌then◌else◌,
  str_eq, is_some, not,
}

pub data LockOrigin : Type 0 where
  machine manual schedule sync : LockOrigin

-- 'none' | 'sidecar' | 'byte_range'
pub data ServerLockKind : Type 0 where
  no_projection sidecar byte_range : ServerLockKind

pub record LockRow : Type 0 where
  pub id : ℕ
  pub share_id : ℕ
  pub rel_path : String
  pub origin : LockOrigin
  pub owner_label : Option String
  pub machine_ip : Option String
  pub smb_pid : Option ℕ
  pub smb_session_id : Option String
  pub server_lock_kind : ServerLockKind
  pub server_lock_ok : Bool
  pub server_lock_error : Option String
  pub server_read_only_applied : Bool
  pub acquired_at : ℕ
  pub expires_at : Option ℕ
  pub released_at : Option ℕ
  pub note : Option String

-- `released_at IS NULL`
abbrev pub is_active : LockRow → Bool
is_active r = not (is_some r.released_at)

-- What an UPDATE sets: the release with its reason (`COALESCE(@reason, note)`), the state of the
-- projection, the record of a permission taken, or
-- the loss of the projection (`… AND released_at IS NULL`).
pub data Update : Type 0 where
  set_released : ℕ → Option String → Update
  set_projected : Bool → Option String → Update
  set_read_only : Bool → Update
  set_lost : Option String → Update

abbrev pub coalesce : Option String → Option String → Option String
coalesce none old = old
coalesce (some reason) old = some reason

abbrev pub apply_update : Update → LockRow → LockRow
apply_update (set_released at reason) r = record r {
  released_at = some at;
  note = coalesce reason r.note;
}
apply_update (set_projected ok error) r = record r {
  server_lock_ok = ok;
  server_lock_error = error;
}
apply_update (set_read_only b) r = record r { server_read_only_applied = b }
apply_update (set_lost error) r =
    if is_active r then record r { server_lock_ok = false; server_lock_error = error } else r

-- `UPDATE locks SET … WHERE id = @id`
unfoldable pub set_row : ℕ → Update → List LockRow → List LockRow
set_row id u [] = []
set_row id u (r ∷ rs) = (if r.id == id then apply_update u r else r) ∷ set_row id u rs

abbrev pub is_on : ℕ → String → LockRow → Bool
is_on share_id rel_path r = r.share_id == share_id && str_eq r.rel_path rel_path

-- `SELECT * FROM locks WHERE share_id = @shareId AND rel_path = @relPath AND released_at IS NULL`
unfoldable pub find_active : ℕ → String → List LockRow → Option LockRow
find_active share_id rel_path [] = none
find_active share_id rel_path (r ∷ rs) =
    if is_on share_id rel_path r && is_active r then some r else find_active share_id rel_path rs

-- `SELECT * FROM locks WHERE id = @id AND released_at IS NULL`
unfoldable pub find_active_id : ℕ → List LockRow → Option LockRow
find_active_id id [] = none
find_active_id id (r ∷ rs) = if r.id == id && is_active r then some r else find_active_id id rs

-- `SELECT * FROM locks WHERE id = @id`
unfoldable pub find_row : ℕ → List LockRow → Option LockRow
find_row id [] = none
find_row id (r ∷ rs) = if r.id == id then some r else find_row id rs

-- The id that SQLite gives to the next row of an INTEGER PRIMARY KEY: one more than the largest.
unfoldable pub new_id : List LockRow → ℕ
new_id [] = 1
new_id (r ∷ rs) = max (suc r.id) (new_id rs)
