-- ===== src/Versioning/VersionStore/Restore.antt =====
-- Restoring a version of backend/versioning/version-store.ts, and undoing it.
use cnc_network_bridge.Base.{ℕ, String, Bool, Option, none, some, string_eq, or_else}
use cnc_network_bridge.Versioning.Retention.{FileVersion}
use cnc_network_bridge.Versioning.BlobStore.{Bytes}
use cnc_network_bridge.Versioning.BlobStore.Coding.{Coding}
use cnc_network_bridge.Versioning.VersionStore.{
  VersionStore, Result, ok, err, CaptureResult, find_version, restore, restore_found, restore_to,
  restore_over, after_pre_image,
}
use cnc_network_bridge.Versioning.VersionStore.Backed.{
  IsWell, capture-IsWell, extract_version-IsWell,
}

module _ (k : Coding) where
  open k use {sha256, gzip, gunzip, gunzip-gzip, sha256-is_digest}

  after_pre_image-IsWell :
      (v : FileVersion) (target path : String) (fails : Bool)
      (r : VersionStore × Result CaptureResult)
      → IsWell k r.0
      → IsWell k (after_pre_image sha256 gzip gunzip v target path fails r).0
  after_pre_image-IsWell v target path fails (s, err e) w = w
  after_pre_image-IsWell v target path fails (s, ok c) w =
      extract_version-IsWell k v target path c.version.id fails s w

  restore_over-IsWell :
      (v : FileVersion) (target path : String) (there : Option Bytes) (mtime now : ℕ) (fails : Bool)
      (s : VersionStore)
      → IsWell k s
      → IsWell k (restore_over sha256 gzip gunzip v target path there mtime now fails s).0
  restore_over-IsWell v target path none mtime now fails s w =
      extract_version-IsWell k v target path 0 fails s w
  restore_over-IsWell v target path (some c) mtime now fails s w =
      after_pre_image-IsWell v target path fails _ (capture-IsWell k _ mtime now fails s w)

  restore_to-IsWell :
      (v : FileVersion) (target : String) (path : Option String) (mtime now : ℕ) (fails : Bool)
      (s : VersionStore)
      → IsWell k s
      → IsWell k (restore_to sha256 gzip gunzip v target path mtime now fails s).0
  restore_to-IsWell v target none mtime now fails s w = w
  restore_to-IsWell v target (some path) mtime now fails s w =
      restore_over-IsWell v target path _ mtime now fails s w

  restore_found-IsWell :
      (v : Option FileVersion) (id : ℕ) (resolve : String → Option String) (target : Option String)
      (mtime now : ℕ) (fails : Bool) (s : VersionStore)
      → IsWell k s
      → IsWell k (restore_found sha256 gzip gunzip v id resolve target mtime now fails s).0
  restore_found-IsWell none id resolve target mtime now fails s w = w
  restore_found-IsWell (some v) id resolve target mtime now fails s w =
      restore_to-IsWell v (or_else target v.rel_path) _ mtime now fails s w

  pub restore-IsWell :
      (id : ℕ) (resolve : String → Option String) (target : Option String) (mtime now : ℕ)
      (fails : Bool) (s : VersionStore)
      → IsWell k s
      → IsWell k (restore sha256 gzip gunzip id resolve target mtime now fails s).0
  unfolding restore
  restore-IsWell id resolve target mtime now fails s w =
      restore_found-IsWell (find_version id s.rows) id resolve target mtime now fails s w
