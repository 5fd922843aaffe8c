-- ===== src/Sync/Diff.antt =====
-- backend/sync/diff-engine.ts: the decision for one path, from its two sides and the last state
-- that both agreed on. `null` is `none`; the messages are built as the template literals build them.
pub mod Types
pub mod Names
pub mod Compare
pub mod Resolve
pub mod Capture
pub mod Availability
pub mod Conflict
pub mod Settle
mod Tests
use cnc_network_bridge.Base.{
  ℕ, ◌+◌, ◌-◌, max, String, Bool, true, false, ◌&&◌, ◌||◌, Option, none, some, List, [], ◌==◌, ltb,
  leb, if◌then◌else◌, ◌<>◌, decimal, str_eq, is_some, or_else, abs_diff,
}
use Types.{
  FileSide, Side, ConflictMode, machine_wins, server_wins, last_write_wins, FileState, DiffConfig,
  DiffInput, VerdictAction, VerdictReason, Place, CaptureReason, VersionCapture, ConflictOutcome,
  Verdict, SideChange, absent, created, unchanged, changed, deleted,
}
use Names.{validate_heidenhain_name}
use Compare.{
  same_content, classify_side, needs_capture, both_same, is_server_mutating, is_local_mutating,
  needs_a_reachable_server,
}
use Resolve.{plain, capture, resolve_conflict}

abbrev change_name : SideChange → String
change_name absent = "absent"
change_name created = "created"
change_name unchanged = "unchanged"
change_name changed = "changed"
change_name deleted = "deleted"

module _ (upper_case : String → String) where
  -- Both sides hold something that the base does not: equal content needs no transfer.
  converge_or_resolve : Side → Side → DiffConfig → String → String → Verdict
  unfolding resolve_conflict
  converge_or_resolve local remote config same differing =
      if both_same local remote
      then plain VerdictAction.converge VerdictReason.converged (config.rel_path <> same)
          FileState.synced
      else resolve_conflict upper_case local remote config (config.rel_path <> differing)

  -- The ladder of tests is on the two classifications alone, so it is a table of them.
  pub decide_core : Side → Side → SideChange → SideChange → DiffConfig → Verdict
  unfolding converge_or_resolve
  decide_core local remote absent absent config =
      plain VerdictAction.noop VerdictReason.in_sync (config.rel_path <> " exists on neither side")
        FileState.synced
  decide_core local remote created absent config =
      plain VerdictAction.push VerdictReason.local_created (config.rel_path <> " is new locally")
        FileState.pending_push
  decide_core local remote absent created config =
      record (plain VerdictAction.pull VerdictReason.remote_created
        (config.rel_path <> " is new on the server") FileState.pending_pull) {
          warnings = validate_heidenhain_name upper_case config.rel_path;
        }
  decide_core local remote created created config =
      converge_or_resolve local remote config " appeared on both sides with identical content"
        " appeared on both sides differing"
  decide_core local remote unchanged unchanged config =
      plain VerdictAction.noop VerdictReason.in_sync
        (config.rel_path <> " is unchanged on both sides") FileState.synced
  decide_core local remote changed unchanged config =
      record (plain VerdictAction.push VerdictReason.local_changed
        (config.rel_path <> " changed locally") FileState.pending_push) {
          capture_version =
              if needs_capture remote local
              then capture Place.remote CaptureReason.overwrite
              else none;
        }
  decide_core local remote unchanged changed config =
      record (plain VerdictAction.pull VerdictReason.remote_changed
        (config.rel_path <> " changed on the server") FileState.pending_pull) {
          capture_version =
              if needs_capture local remote
              then capture Place.local CaptureReason.overwrite
              else none;
          warnings = validate_heidenhain_name upper_case config.rel_path;
        }
  decide_core local remote deleted unchanged config =
      if config.protect_deletes
      then plain VerdictAction.pull VerdictReason.delete_protected
          (config.rel_path
            <> " was deleted locally; protect_deletes restores it from the server instead of deleting there")
          FileState.pending_pull
      else record (plain VerdictAction.delete_remote VerdictReason.local_deleted
          (config.rel_path <> " was deleted locally") FileState.pending_push) {
            capture_version = capture Place.remote CaptureReason.delete;
          }
  decide_core local remote unchanged deleted config =
      if config.protect_deletes
      then plain VerdictAction.push VerdictReason.delete_protected
          (config.rel_path
            <> " was deleted on the server; protect_deletes keeps the local copy and restores it there")
          FileState.pending_push
      else record (plain VerdictAction.delete_local VerdictReason.remote_deleted
          (config.rel_path <> " was deleted on the server") FileState.pending_pull) {
            capture_version = capture Place.local CaptureReason.delete;
          }
  decide_core local remote deleted deleted config =
      plain VerdictAction.noop VerdictReason.both_deleted
        (config.rel_path <> " was deleted on both sides") FileState.synced
  decide_core local remote changed changed config =
      converge_or_resolve local remote config " changed on both sides to identical content"
        " changed on both sides"
  decide_core local remote deleted changed config =
      resolve_conflict upper_case local remote config
        (config.rel_path <> " was deleted locally but changed on the server")
  decide_core local remote changed deleted config =
      resolve_conflict upper_case local remote config
        (config.rel_path <> " changed locally but was deleted on the server")
  decide_core local remote here there config =
      plain VerdictAction.error VerdictReason.in_sync
        ("unreachable state for "
          <> config.rel_path
          <> ": local="
          <> change_name here
          <> " remote="
          <> change_name there)
        FileState.error

pub blocked_by_server : DiffConfig → VerdictAction → Bool
unfolding needs_a_reachable_server is_server_mutating
blocked_by_server config action =
    (config.server_offline || config.read_only)
    && (if config.server_offline
        then needs_a_reachable_server action
        else is_server_mutating action)

-- The first override: the server is away or must not be written to.
pub defer_for_server : DiffConfig → Verdict → Verdict
unfolding blocked_by_server
defer_for_server config v =
    if blocked_by_server config v.action
    then record v {
      action = VerdictAction.defer;
      reason =
          if config.server_offline then VerdictReason.server_offline else VerdictReason.read_only;
      detail =
          v.detail
          <> " — deferred because the server share is "
          <> (if config.server_offline then "unreachable" else "read-only");
      capture_version = none;
    }
    else v

-- The second: a machine holds the file open.
pub defer_for_lock : DiffConfig → Verdict → Verdict
unfolding is_local_mutating
defer_for_lock config v =
    if config.locked && is_local_mutating v.action
    then record v {
      action = VerdictAction.defer;
      reason = VerdictReason.locked_by_machine;
      detail = v.detail <> " — deferred because a TNC holds " <> config.rel_path <> " open";
      capture_version = none;
      next_state = FileState.deferred_locked;
    }
    else v

pub apply_availability_overrides : Verdict → DiffConfig → Verdict
unfolding defer_for_server defer_for_lock
apply_availability_overrides v config = defer_for_lock config (defer_for_server config v)

abbrev size_of : Side → ℕ
size_of none = 0
size_of (some s) = s.size

-- The table's verdict, at the classification of each side against the base.
abbrev pub core_verdict : (String → String) → DiffInput → Verdict
core_verdict upper_case input =
    decide_core upper_case input.local input.remote (classify_side input.local input.base)
      (classify_side input.remote input.base) input.config

unfoldable pub decide : (String → String) → DiffInput → Verdict
unfolding decide_core apply_availability_overrides classify_side
decide upper_case input =
    let config = input.config in
    let largest = max (size_of input.local) (size_of input.remote) in
    if config.excluded
    then plain VerdictAction.exclude VerdictReason.excluded
        (config.rel_path <> " matches an exclude pattern") FileState.excluded
    else if config.case_collision
    then plain VerdictAction.error VerdictReason.case_collision
        (config.rel_path
          <> " collides with another indexed path that differs only by case; SMB cannot distinguish them and one would silently overwrite the other")
        FileState.error
    else if ltb config.max_file_size_bytes largest
    then plain VerdictAction.skip VerdictReason.oversized
        (config.rel_path
          <> " is "
          <> decimal largest
          <> " bytes, above the configured limit of "
          <> decimal config.max_file_size_bytes
          <> "; raise the limit or exclude the path")
        FileState.error
    else apply_availability_overrides (core_verdict upper_case input) config
