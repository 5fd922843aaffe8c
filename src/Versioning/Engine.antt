-- ===== src/Versioning/Engine.antt =====
-- backend/versioning/versioning-engine.ts, and the port of backend/sync/filesystem-ports.ts that calls it.
-- A capture is put into a queue, which stands for the event loop, and runs later as a whole. The usage of the
-- disk is its total and its free bytes, and a fraction of it is the exact ratio, where the source takes doubles.
pub mod Late
use cnc_network_bridge.Base.{
  ℕ, ◌+◌, ◌-◌, ◌*◌, String, Bool, true, false, not, Option, none, some, List, [], ◌∷◌, ◌++◌, ltb,
  if◌then◌else◌, ◌<>◌, put, string_eq,
}
use cnc_network_bridge.Sync.Diff.Types.{Place, CaptureReason, VersionCapture}
use cnc_network_bridge.Versioning.Retention.{VersionOrigin}
use cnc_network_bridge.Versioning.BlobStore.{Bytes}
use cnc_network_bridge.Versioning.VersionStore.{VersionStore, CaptureInput, capture}

-- A fraction, such as the threshold below which no capture is made.
pub record Ratio : Type 0 where
  pub part : ℕ
  pub whole : ℕ

abbrev pub default_threshold : Ratio
default_threshold = record { part = 1; whole = 10 }

pub record DiskUsage : Type 0 where
  pub total_bytes : ℕ
  pub free_bytes : ℕ

-- The store, the captures that wait for the event loop, and the threshold.
pub record VersioningEngine : Type 0 where
  pub store : VersionStore
  pub waiting : List CaptureInput
  pub disk_pressure_threshold : Ratio

abbrev fire_and_forget : CaptureInput → VersioningEngine → VersioningEngine
fire_and_forget input e = record e { waiting = e.waiting ++ input ∷ [] }

abbrev input_of : ℕ → String → String → VersionOrigin → String → CaptureInput
input_of share_id rel_path source_path origin reason = record {
  share_id = share_id;
  rel_path = rel_path;
  source_path = source_path;
  origin = origin;
  reason = some reason;
}

unfoldable pub capture_before_pull : ℕ → String → String → VersioningEngine → VersioningEngine
capture_before_pull share_id rel_path source_path e =
    fire_and_forget
      (input_of share_id rel_path source_path VersionOrigin.server
        "pre-PULL: local content about to be overwritten from server")
      e

unfoldable pub capture_before_push : ℕ → String → String → VersioningEngine → VersioningEngine
capture_before_push share_id rel_path source_path e =
    fire_and_forget
      (input_of share_id rel_path source_path VersionOrigin.machine
        "pre-PUSH: local change about to be pushed to server")
      e

unfoldable pub capture_conflict_loser :
    ℕ → String → String → String → VersioningEngine → VersioningEngine
capture_conflict_loser share_id rel_path source_path mode e =
    fire_and_forget
      (input_of share_id rel_path source_path VersionOrigin.conflict_loser
        ("conflict resolved: losing side saved (mode: " <> mode <> ")"))
      e

abbrev side_name : Place → String
side_name Place.local = "local"
side_name Place.remote = "remote"

pub capture_initial : ℕ → String → String → Place → VersioningEngine → VersioningEngine
capture_initial share_id rel_path source_path side e =
    fire_and_forget
      (input_of share_id rel_path source_path VersionOrigin.initial
        ("first sync: baseline for " <> side_name side <> " side"))
      e

abbrev for_side : Place → ℕ → String → String → VersioningEngine → VersioningEngine
for_side Place.local = capture_before_push
for_side Place.remote = capture_before_pull

abbrev for_reason :
    CaptureReason → Place → ℕ → String → String → VersioningEngine → VersioningEngine
for_reason CaptureReason.overwrite side = for_side side
for_reason CaptureReason.delete side = for_side side
for_reason CaptureReason.conflict_loser side = λ share_id rel_path source_path e.
    capture_conflict_loser share_id rel_path source_path "unknown" e

unfoldable pub handle_orchestrator_capture :
    ℕ → String → String → VersionCapture → VersioningEngine → VersioningEngine
unfolding capture_before_pull capture_before_push capture_conflict_loser
handle_orchestrator_capture share_id rel_path source_path c e =
    for_reason c.reason c.side share_id rel_path source_path e

-- Where a file of a share lies: `join(root, toNative(relPath))`.
pub record Ports : Type 0 where
  pub share_id : ℕ
  pub path_at : Place → String → String

-- The port `captureVersion`, which is done at once.
unfoldable pub capture_version :
    Ports → String → VersionCapture → VersioningEngine → VersioningEngine
unfolding handle_orchestrator_capture
capture_version ports rel_path c e =
    handle_orchestrator_capture ports.share_id rel_path (ports.path_at c.side rel_path) c e

-- `percentFree < diskPressureThreshold * 100`, with 0 where there is no block.
abbrev is_pressed : Ratio → DiskUsage → Bool
is_pressed threshold usage =
    if ltb 0 usage.total_bytes
    then ltb (usage.free_bytes * threshold.whole) (threshold.part * usage.total_bytes)
    else ltb 0 threshold.part

-- `none` is a usage that cannot be read.
abbrev pub should_capture : Ratio → Option DiskUsage → Bool
should_capture threshold none = true
should_capture threshold (some usage) = not (is_pressed threshold usage)

-- The ports `pull` and `push`, once the content is at its destination.
unfoldable pub transfer : String → Bytes → VersioningEngine → VersioningEngine
transfer path content e = record e {
  store = record e.store {
    blobs = record e.store.blobs { outside = put path content e.store.blobs.outside };
  };
}

module _ (sha256 : Bytes → String) (gzip : Bytes → Bytes) (gunzip : Bytes → Option Bytes) where
  abbrev run_capture : CaptureInput → Bool → ℕ → ℕ → Bool → VersionStore → VersionStore
  run_capture input true mtime now fails s = (capture sha256 gzip gunzip input mtime now fails s).0
  run_capture input false mtime now fails s = s

  abbrev run_first :
      List CaptureInput → Option DiskUsage → ℕ → ℕ → Bool → VersioningEngine → VersioningEngine
  run_first [] usage mtime now fails e = e
  run_first (input ∷ waiting) usage mtime now fails e = record e {
    store =
        run_capture input (should_capture e.disk_pressure_threshold usage) mtime now fails e.store;
    waiting = waiting;
  }

  -- The event loop runs the capture that waits longest. Its error is only logged.
  unfoldable pub tick : Option DiskUsage → ℕ → ℕ → Bool → VersioningEngine → VersioningEngine
  tick usage mtime now fails e = run_first e.waiting usage mtime now fails e
