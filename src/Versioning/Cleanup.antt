-- ===== src/Versioning/Cleanup.antt =====
-- backend/versioning/cleanup.ts: the retention plan carried out, and the sweep of the orphaned blobs. The
-- clock that measures how long a pass takes, the log and the audit are left out.
pub mod Rows
pub mod Spared
pub mod Pass
pub mod Estimate
pub mod Freed
pub mod History
pub mod Listed
use cnc_network_bridge.Base.{
  ℕ, zero, suc, ◌+◌, ◌*◌, ◌/◌, ◌%◌, ◌^◌, String, Bool, true, false, not, ◌&&◌, Option, none, some,
  List, [], ◌∷◌, leb, ltb, ◌==◌, if◌then◌else◌, str_eq, length, map, filter_by, any_of, Dict, put,
  string_eq, or_else, ◌<>◌, decimal,
}
use cnc_network_bridge.Versioning.Retention.{
  FileVersion, RetentionPlan, RetentionInput, PruneDecision, plan_retention,
}
use cnc_network_bridge.Versioning.BlobStore.{BlobStore, Located, StoreError, locate, list_digests}
use cnc_network_bridge.Versioning.BlobStore
use cnc_network_bridge.Scheduling.Jobs.{JobOutcome}
use cnc_network_bridge.Versioning.VersionStore.{
  VersionStore, VersionError, Result, ok, err, delete, all_for_share, live_hashes,
  referenced_version_ids,
}

pub record VersioningConfig : Type 0 where
  pub enabled : Bool
  pub keep_count : ℕ
  pub keep_days : ℕ

pub record DryRunReport : Type 0 where
  pub plan : RetentionPlan
  pub estimated_bytes_freed : ℕ

pub record CleanupReport : Type 0 where
  pub versions_deleted : ℕ
  pub blobs_deleted : ℕ
  pub bytes_freed : ℕ
  pub failures : List (ℕ × VersionError)
  pub skipped : Bool

abbrev pub input_for : VersioningConfig → List (Option ℕ) → ℕ → List FileVersion → RetentionInput
input_for config conflicts now all = record {
  versions = all;
  policy = record { keep_count = config.keep_count; keep_days = config.keep_days };
  referenced_ids = some (referenced_version_ids conflicts);
  now = now;
}

-- `doomedIds.has`
abbrev pub is_doomed : List PruneDecision → FileVersion → Bool
is_doomed ds v = any_of (λ (d : PruneDecision). d.version.id == v.id) ds

abbrev pub survives : List PruneDecision → FileVersion → Bool
survives ds v = not (is_doomed ds v)

-- `survivingHashes.has`
abbrev pub cites : List FileVersion → String → Bool
cites vs hash = any_of (λ (v : FileVersion). str_eq v.hash hash) vs

unfoldable pub freed_hashes : List FileVersion → List PruneDecision → Dict String ℕ → Dict String ℕ
freed_hashes surviving [] freed = freed
freed_hashes surviving (d ∷ ds) freed =
    freed_hashes surviving ds
      (if cites surviving d.version.hash then freed else put d.version.hash d.version.size freed)

abbrev pub sum_sizes : Dict String ℕ → ℕ
sum_sizes [] = 0
sum_sizes ((hash, size) ∷ freed) = size + sum_sizes freed

unfoldable pub dry_run :
    VersioningConfig → List (Option ℕ) → ℕ → Option ℕ → VersionStore → DryRunReport
unfolding freed_hashes
dry_run config conflicts now share_id s =
    let all = all_for_share share_id s in
    let plan = plan_retention (input_for config conflicts now all) in
    let surviving = filter_by (survives plan.prune) all in
    record { plan = plan; estimated_bytes_freed = sum_sizes (freed_hashes surviving plan.prune []) }

-- What one deletion adds to the report.
abbrev pub count_deletion : PruneDecision → Result Bool → CleanupReport → CleanupReport
count_deletion d (err e) report = record report { failures = (d.version.id, e) ∷ report.failures }
count_deletion d (ok false) report = record report {
  versions_deleted = suc report.versions_deleted;
}
count_deletion d (ok true) report = record report {
  versions_deleted = suc report.versions_deleted;
  blobs_deleted = suc report.blobs_deleted;
  bytes_freed = d.version.size + report.bytes_freed;
}

-- The loop over the plan, with what it adds to the report of the rest.
unfoldable pub delete_all : List PruneDecision → VersionStore → VersionStore × CleanupReport
unfolding delete
delete_all [] s = (
  s,
  record {
    versions_deleted = 0;
    blobs_deleted = 0;
    bytes_freed = 0;
    failures = [];
    skipped = false;
  },
)
delete_all (d ∷ ds) s =
    let (s', r) = delete d.version.id s in
    let (s'', report) = delete_all ds s' in (s'', count_deletion d r report)

abbrev pub nothing_done : CleanupReport
nothing_done = record {
  versions_deleted = 0;
  blobs_deleted = 0;
  bytes_freed = 0;
  failures = [];
  skipped = true;
}

unfoldable pub run :
    VersioningConfig → List (Option ℕ) → ℕ → Option ℕ → VersionStore → VersionStore × CleanupReport
unfolding dry_run delete_all
run config conflicts now share_id s =
    if config.enabled
    then delete_all (dry_run config conflicts now share_id s).plan.prune s
    else (s, nothing_done)

pub record SweepReport : Type 0 where
  pub deleted : ℕ
  pub bytes_freed : ℕ

abbrev stored_size : Option Located → ℕ
stored_size none = 0
stored_size (some l) = length l.stored

abbrev count_swept : ℕ → BlobStore.Result Bool → SweepReport → SweepReport
count_swept size (BlobStore.ok true) report = record {
  deleted = suc report.deleted;
  bytes_freed = size + report.bytes_freed;
}
count_swept size _ report = report

abbrev size_of : BlobStore.Result (Option Located) → ℕ
size_of (BlobStore.ok found) = stored_size found
size_of (BlobStore.err e) = 0

-- The loop over the listed digests, with the live ones as they were read before. What is listed is a
-- digest, so neither `locate` nor `delete` refuses it.
unfoldable pub sweep_all : List String → List String → BlobStore → BlobStore × SweepReport
unfolding locate BlobStore.delete
sweep_all live [] s = (s, record { deleted = 0; bytes_freed = 0 })
sweep_all live (hash ∷ hashes) s =
    let kept = sweep_all live hashes s in
    let size = size_of (locate hash s) in
    let (s', r) = BlobStore.delete hash s in
    let (s'', report) = sweep_all live hashes s' in
    if any_of (str_eq hash) live then kept else (s'', count_swept size r report)

-- The rest of `sweepOrphans`, once the live digests are read.
unfoldable pub sweep_unless : List String → VersionStore → VersionStore × SweepReport
unfolding sweep_all list_digests
sweep_unless live s =
    let (blobs, report) = sweep_all live (list_digests s.blobs) s.blobs in
    (record s { blobs = blobs }, report)

unfoldable pub sweep_orphans : VersionStore → VersionStore × SweepReport
unfolding sweep_unless
sweep_orphans s = sweep_unless (live_hashes s) s

abbrev unit_name : ℕ → String
unit_name zero = "KB"
unit_name (suc zero) = "MB"
unit_name (suc (suc zero)) = "GB"
unit_name n = "TB"

-- The unit that the loop ends with, after some rounds.
unfoldable pub pick_unit : ℕ → ℕ → ℕ → ℕ
pick_unit zero bytes unit = unit
pick_unit (suc rounds) bytes unit =
    let next = pick_unit rounds bytes (suc unit) in
    if leb (1024 * 1024 ^ suc unit) bytes then next else unit

-- `toFixed(1)` of a quotient by a power of two, which is exact: the nearest tenth, the greater of two.
unfoldable pub to_tenths : ℕ → ℕ → String
unfolding decimal
to_tenths bytes divisor =
    let tenths = (20 * bytes + divisor) / (2 * divisor) in
    decimal (tenths / 10) <> "." <> decimal (tenths % 10)

unfoldable pub format_bytes : ℕ → String
unfolding pick_unit to_tenths
format_bytes bytes =
    let unit = pick_unit 3 bytes 0 in
    if ltb bytes 1024
    then decimal bytes <> " B"
    else to_tenths bytes (1024 ^ suc unit) <> " " <> unit_name unit

abbrev failed_part : ℕ → String
failed_part zero = ""
failed_part n = ", " <> decimal n <> " failed"

-- `asJobHandler`, of the report.
pub job_outcome : CleanupReport → JobOutcome
unfolding format_bytes
job_outcome report =
    if report.skipped
    then record { detail = some "versioning is disabled"; skipped = true }
    else if report.versions_deleted == 0 && length report.failures == 0
    then record { detail = some "nothing to prune"; skipped = false }
    else record {
      detail = some (
          decimal report.versions_deleted
          <> " versions, "
          <> decimal report.blobs_deleted
          <> " blobs, "
          <> format_bytes report.bytes_freed
          <> " freed"
          <> failed_part (length report.failures));
      skipped = false;
    }
