-- ===== src/Sync/Diff/Types.antt =====
-- backend/sync/diff-engine.ts: what the engine takes and what it answers, and `FileSide` and
-- `FileState` of shared/schemas/file-index.ts. Sizes and times in milliseconds are whole numbers
-- there, so they are natural numbers here.
use cnc_network_bridge.Base.{ℕ, String, Bool, Option, List}

pub record FileSide : Type 0 where
  pub size : ℕ
  pub mtime : ℕ
  pub hash : Option String

-- `none` is "absent here".
abbrev pub Side : Type 0
Side = Option FileSide

pub data ConflictMode : Type 0 where
  machine_wins server_wins last_write_wins : ConflictMode

pub data FileState : Type 0 where
  new synced pending_push pending_pull conflict deferred_locked error excluded : FileState

pub record DiffConfig : Type 0 where
  pub conflict_mode : ConflictMode
  pub mtime_tolerance_ms : ℕ
  pub protect_deletes : Bool
  pub max_file_size_bytes : ℕ
  pub excluded : Bool
  pub locked : Bool
  pub server_offline : Bool
  pub read_only : Bool
  pub case_collision : Bool
  pub rel_path : String

pub record DiffInput : Type 0 where
  pub local : Side
  pub remote : Side
  pub base : Side
  pub config : DiffConfig

pub data VerdictAction : Type 0 where
  noop push pull delete_remote delete_local converge defer exclude skip error : VerdictAction

pub data VerdictReason : Type 0 where
  in_sync local_changed remote_changed local_created remote_created : VerdictReason
  local_deleted remote_deleted both_deleted converged conflict_resolved : VerdictReason
  delete_protected excluded oversized case_collision server_offline : VerdictReason
  read_only locked_by_machine : VerdictReason

-- 'local' | 'remote'
pub data Place : Type 0 where
  local remote : Place

pub data CaptureReason : Type 0 where
  overwrite delete conflict_loser : CaptureReason

pub record VersionCapture : Type 0 where
  pub side : Place
  pub reason : CaptureReason

pub record ConflictOutcome : Type 0 where
  pub mode_applied : ConflictMode
  pub winner : Place
  pub tie_broken : Bool
  pub local_mtime : Option ℕ
  pub remote_mtime : Option ℕ

pub record Verdict : Type 0 where
  pub action : VerdictAction
  pub reason : VerdictReason
  pub detail : String
  pub capture_version : Option VersionCapture
  pub conflict : Option ConflictOutcome
  pub next_state : FileState
  pub warnings : List String

pub data SideChange : Type 0 where
  absent created unchanged changed deleted : SideChange
