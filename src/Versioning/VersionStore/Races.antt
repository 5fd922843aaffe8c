-- ===== src/Versioning/VersionStore/Races.antt =====
-- A capture that comes between the two halves of a deletion in backend/versioning/version-store.ts.
use cnc_network_bridge.Base.{
  ℕ, String, ◌≡◌, refl, sym, ap, ◌∙◌, true, false, none, some, [], ◌∷◌, ◌++◌, filter_by, arith, inl,
  inr, Option-cases, get, string_eq,
}
use cnc_network_bridge.Versioning.Retention.{FileVersion}
use cnc_network_bridge.Versioning.BlobStore.{
  Bytes, BlobStore, StoredBlob, StoreError, Located, put_file, read_all,
}
use cnc_network_bridge.Versioning.BlobStore
use cnc_network_bridge.Versioning.BlobStore.Coding.{Coding}
use cnc_network_bridge.Versioning.BlobStore.Roundtrip.{is_present}
use cnc_network_bridge.Versioning.BlobStore.Stored.{known, put_file-known, delete_last}
use cnc_network_bridge.Versioning.VersionStore.{
  VersionStore, err, store_failed, CaptureInput, capture, capture_content, insert_row, version_of,
  find_version, delete_row, unlink_blob, open_content, content_found, opened, is_other,
}
use cnc_network_bridge.Versioning.VersionStore.Backed.{IsWell}
use cnc_network_bridge.Versioning.VersionStore.Written.{IsBacked-row, find_version-append_new}

present_raw :
    (h : String) (s : BlobStore)
    → is_present h s ≡ true
    → get h s.gz ≡ none
    → (x : Bytes) × (get h s.raw ≡ some x)
present_raw h s p e = elim (Option-cases (get h s.raw)) [
  | inl n ↦ absurd (cc)
  | inr (x, f) ↦ (x, f)
]

module _ (k : Coding) where
  open k use {sha256, gzip, gunzip, gunzip-gzip, sha256-is_digest}

  capture-known :
      (input : CaptureInput) (mtime now : ℕ) (c x : Bytes) (s : VersionStore)
      → get input.source_path s.blobs.outside ≡ some c
      → get (sha256 c) s.blobs.raw ≡ some x
      → (capture sha256 gzip gunzip input mtime now false s).0 ≡ record {
        blobs = s.blobs;
        rows = s.rows ++ version_of input (known k c x) mtime now s.rows ∷ [];
      }
  unfolding capture
  capture-known input mtime now c x s e f =
      ap (λ o. (capture_content sha256 gzip gunzip input o mtime now false s).0) e
      ∙ ap (λ r. (insert_row input mtime now s.rows r).0) (put_file-known k c x s.blobs f)

  backed_raw :
      (c : Bytes) (h : String) (s : BlobStore)
      → sha256 c ≡ h
      → is_present h s ≡ true
      → get (sha256 c) s.gz ≡ none
      → (x : Bytes) × (get (sha256 c) s.raw ≡ some x)
  backed_raw c h s e p g = present_raw (sha256 c) s (rw e p) g

  -- A deletion that finds no other row of a digest, whose blob is stored uncompressed, and a capture of the
  -- same content before the blob is unlinked: the capture's row is listed, and its blob is not there.
  pub delete_race :
      (v : FileVersion) (c : Bytes) (input : CaptureInput) (mtime now : ℕ) (s : VersionStore)
      → IsWell k s
      → find_version v.id s.rows ≡ some v
      → v.hash ≡ sha256 c
      → (delete_row v s).1 ≡ true
      → get (sha256 c) s.blobs.gz ≡ none
      → get input.source_path s.blobs.outside ≡ some c
      → let s1 = (delete_row v s).0 in
        let s2 = (capture sha256 gzip gunzip input mtime now false s1).0 in
        let s3 = (unlink_blob v.hash s2).0 in
        (w : FileVersion) × (find_version w.id s3.rows ≡ some w)
        × (w.hash ≡ sha256 c)
        × (open_content sha256 gzip gunzip w.id s3
            ≡ err (store_failed (StoreError.blob_not_found (sha256 c))))
  unfolding delete_row unlink_blob open_content
  delete_race v c input mtime now s w found same last gz there =
      let backed = IsBacked-row k v.id s.blobs s.rows v found w.backed in
      let (x, raw) = backed_raw c v.hash s.blobs (sym same) backed.there gz in
      let rest = filter_by (is_other v.id) s.rows in
      let s1 : VersionStore = record { blobs = s.blobs; rows = rest } in
      let new = version_of input (known k c x) mtime now rest in
      let row = find_version-append_new rest new (ground arith) in
      let s3 : VersionStore = record {
        blobs = (BlobStore.delete (sha256 c) s.blobs).0;
        rows = rest ++ new ∷ [];
      } in
      rw (capture-known input mtime now c x s1 there raw, same)
        (
          new,
          row,
          refl,
          ap (λ o. content_found sha256 gzip gunzip o new.id s3) row
              ∙ ap (opened sha256 gzip gunzip) (delete_last k c x s.blobs w.intact gz raw),
        )
