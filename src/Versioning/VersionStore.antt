-- ===== src/Versioning/VersionStore.antt =====
-- backend/versioning/version-store.ts: captures and restores over the table of versions and the blob store.
-- The files of the cache are those that the blob store knows as outside; a file does not change while it is
-- captured.
mod Rows
pub mod Paths
pub mod Backed
pub mod Restore
pub mod Written
pub mod Undo
pub mod Unique
pub mod Races
unfoldable pub use Rows.*
use cnc_network_bridge.Base.{
  ℕ, zero, suc, ◌+◌, ◌-◌, String, Bool, true, false, not, ◌&&◌, ◌||◌, Option, none, some, List, [],
  ◌∷◌, ◌++◌, leb, ltb, ◌==◌, if◌then◌else◌, str_eq, length, map, filter_by, any_of, Dict, get,
  string_eq, max, or_else, ◌<>◌, decimal,
}
use cnc_network_bridge.Versioning.Retention.{FileVersion, VersionOrigin, sort_versions}
use cnc_network_bridge.Versioning.BlobStore.{
  Bytes, BlobStore, StoredBlob, StoreError, put_file, put_buffer, read_all, extract_to,
}
use cnc_network_bridge.Versioning.BlobStore

pub record Restored : Type 0 where
  pub restored_to : String
  pub pre_restore_version_id : ℕ

abbrev pub pre_image : FileVersion → String → String → CaptureInput
pre_image v target path = record {
  share_id = v.share_id;
  rel_path = target;
  source_path = path;
  origin = VersionOrigin.restore;
  reason = some ("pre-restore image, replaced by version " <> decimal v.id);
}

module _ (sha256 : Bytes → String) (gzip : Bytes → Bytes) (gunzip : Bytes → Option Bytes) where
  abbrev capture_content :
      CaptureInput
      → Option Bytes
      → ℕ
      → ℕ
      → Bool
      → VersionStore
      → VersionStore × Result CaptureResult
  capture_content input none mtime now fails s = (s, err source_missing)
  capture_content input (some c) mtime now fails s =
      insert_row input mtime now s.rows (put_file sha256 gzip gunzip (length c) c c fails s.blobs)

  unfoldable pub capture :
      CaptureInput → ℕ → ℕ → Bool → VersionStore → VersionStore × Result CaptureResult
  capture input mtime now fails s =
      capture_content input (get input.source_path s.blobs.outside) mtime now fails s

  unfoldable pub capture_buffer :
      CaptureInput → Bytes → ℕ → ℕ → Bool → VersionStore → VersionStore × Result CaptureResult
  capture_buffer input content mtime now fails s =
      insert_row input mtime now s.rows (put_buffer sha256 gzip gunzip content fails s.blobs)

  abbrev opened : BlobStore.Result Bytes → Result Bytes
  opened (BlobStore.ok c) = ok c
  opened (BlobStore.err e) = err (store_failed e)

  abbrev content_found : Option FileVersion → ℕ → VersionStore → Result Bytes
  content_found none id s = err (version_not_found id)
  content_found (some v) id s = opened (read_all sha256 gzip gunzip v.hash s.blobs)

  -- What a reader of `openContent` gets.
  unfoldable pub open_content : ℕ → VersionStore → Result Bytes
  unfolding find_version
  open_content id s = content_found (find_version id s.rows) id s

  abbrev extract_result :
      String
      → ℕ
      → List FileVersion
      → BlobStore × BlobStore.Result ℕ
      → VersionStore × Result Restored
  extract_result target pre rows (blobs, BlobStore.err e) =
      (record { blobs = blobs; rows = rows }, err (store_failed e))
  extract_result target pre rows (blobs, BlobStore.ok n) = (
    record { blobs = blobs; rows = rows },
    ok (record { restored_to = target; pre_restore_version_id = pre }),
  )

  abbrev extract_version :
      FileVersion → String → String → ℕ → Bool → VersionStore → VersionStore × Result Restored
  extract_version v target path pre fails s =
      extract_result target pre s.rows (extract_to sha256 gzip gunzip v.hash path fails s.blobs)

  -- The extraction, after the capture of what is there.
  abbrev after_pre_image :
      FileVersion
      → String
      → String
      → Bool
      → VersionStore × Result CaptureResult
      → VersionStore × Result Restored
  after_pre_image v target path fails (s, err e) = (s, err e)
  after_pre_image v target path fails (s, ok c) = extract_version v target path c.version.id fails s

  abbrev restore_over :
      FileVersion
      → String
      → String
      → Option Bytes
      → ℕ
      → ℕ
      → Bool
      → VersionStore
      → VersionStore × Result Restored
  restore_over v target path none mtime now fails s = extract_version v target path 0 fails s
  restore_over v target path (some c) mtime now fails s =
      after_pre_image v target path fails (capture (pre_image v target path) mtime now fails s)

  abbrev restore_to :
      FileVersion
      → String
      → Option String
      → ℕ
      → ℕ
      → Bool
      → VersionStore
      → VersionStore × Result Restored
  restore_to v target none mtime now fails s = (s, err (path_escapes target))
  restore_to v target (some path) mtime now fails s =
      restore_over v target path (get path s.blobs.outside) mtime now fails s

  abbrev restore_found :
      Option FileVersion
      → ℕ
      → (String → Option String)
      → Option String
      → ℕ
      → ℕ
      → Bool
      → VersionStore
      → VersionStore × Result Restored
  restore_found none id resolve target mtime now fails s = (s, err (version_not_found id))
  restore_found (some v) id resolve target mtime now fails s =
      let path = or_else target v.rel_path in restore_to v path (resolve path) mtime now fails s

  -- With the path's resolution within the root of the cache.
  unfoldable pub restore :
      ℕ
      → (String → Option String)
      → Option String
      → ℕ
      → ℕ
      → Bool
      → VersionStore
      → VersionStore × Result Restored
  unfolding find_version capture
  restore id resolve target mtime now fails s =
      restore_found (find_version id s.rows) id resolve target mtime now fails s
