-- ===== src/Locking/ReadOnlyGuard.antt =====
-- backend/locking/read-only-guard.ts, over the permission bits of the files on the mounted shares. A
-- `stat` that throws is a file without an entry; whether `chmod` throws is for the server to say, and
-- is the parameter `chmod_error`.
pub mod Effect
mod Tests
use cnc_network_bridge.Base.{
  ℕ, String, Bool, true, false, ◌||◌, Option, none, some, if◌then◌else◌, str_eq,
}

-- The write bits of a mode (0o200, 0o020, 0o002) and the bits that this module leaves alone.
pub record Mode : Type 0 where
  pub user_write : Bool
  pub group_write : Bool
  pub other_write : Bool
  pub other_bits : ℕ

abbrev pub Files : Type 0
Files = String → Option Mode

abbrev pub update : Files → String → Mode → Files
update files path mode p = if str_eq p path then some mode else files p

pub record ReadOnlyResult : Type 0 where
  pub ok : Bool
  pub applied : Bool
  pub error : Option String

-- `(mode & WRITE_BITS) !== 0`
abbrev pub is_writable : Mode → Bool
is_writable m = m.user_write || m.group_write || m.other_write

-- `mode & ~WRITE_BITS`
abbrev pub without_write : Mode → Mode
without_write m = record m { user_write = false; group_write = false; other_write = false }

-- `mode | 0o220`
abbrev pub with_write : Mode → Mode
with_write m = record m { user_write = true; group_write = true }

abbrev failed : String → ReadOnlyResult
failed error = record { ok = false; applied = false; error = some error }

abbrev done : Bool → ReadOnlyResult
done applied = record { ok = true; applied = applied; error = none }

abbrev chmod : Option String → Files → String → Mode → Files × ReadOnlyResult
chmod (some e) files path mode = (files, failed e)
chmod none files path mode = (update files path mode, done true)

module _ (chmod_error : String → Option String) where
  abbrev apply_at : Option Mode → Files → String → Files × ReadOnlyResult
  apply_at none files path = (files, failed "ENOENT")
  apply_at (some m) files path =
      if is_writable m
      then chmod (chmod_error path) files path (without_write m)
      else (files, done false)

  unfoldable pub apply_read_only : String → Files → Files × ReadOnlyResult
  apply_read_only path files = apply_at (files path) files path

  abbrev clear_at : Option Mode → Files → String → Files × ReadOnlyResult
  clear_at none files path = (files, failed "ENOENT")
  clear_at (some m) files path = chmod (chmod_error path) files path (with_write m)

  unfoldable pub clear_read_only : String → Files → Files × ReadOnlyResult
  clear_read_only path files = clear_at (files path) files path
