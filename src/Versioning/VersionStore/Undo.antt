-- ===== src/Versioning/VersionStore/Undo.antt =====
-- What a restore of backend/versioning/version-store.ts writes, and what it keeps of what was there.
use cnc_network_bridge.Base.{
  ℕ, String, ◌≡◌, refl, sym, ap, ◌∙◌, false, Option, none, some, List, [], ◌∷◌, ◌++◌, length, arith,
  get, string_eq, subst,
}
use cnc_network_bridge.Versioning.Retention.{FileVersion}
use cnc_network_bridge.Versioning.BlobStore.{Bytes, put_file, puts, step}
use cnc_network_bridge.Versioning.BlobStore.Roundtrip.{step_keeps}
use cnc_network_bridge.Versioning.BlobStore.Coding.{Coding}
use cnc_network_bridge.Versioning.VersionStore.{
  VersionStore, Result, ok, err, CaptureInput, CaptureResult, capture, capture_content,
  find_version, restore, restore_over, after_pre_image, restore_found, restore_to, Restored,
  next_id, pre_image,
}
use cnc_network_bridge.Versioning.VersionStore.Restore.{restore-IsWell}
use cnc_network_bridge.Versioning.VersionStore.Backed.{IsBacked, IsWell, capture-IsWell}
use cnc_network_bridge.Versioning.VersionStore.Written.{
  find_version-append_new, insert_row-blobs, err_ok, IsBacked-row, extract_version-Writes, Captured,
  capture-Captured,
}

module _ (k : Coding) where
  open k use {sha256, gzip, gunzip, gunzip-gzip, sha256-is_digest}

  -- A restore over a file: the version's content is there, and the row of what was there is the newest.
  record Overwrites (hash path : String) (old : Bytes) (rows : List FileVersion)
      (r : VersionStore × Result Restored) : Type 0 where
    writes : (c : Bytes) × (sha256 c ≡ hash) × (get path r.0.blobs.outside ≡ some c)
    kept : FileVersion
    kept_hash : kept.hash ≡ sha256 old
    kept_id : kept.id ≡ next_id rows
    kept_row : r.0.rows ≡ rows ++ kept ∷ []

  after-Captured :
      (v : FileVersion) (target path : String) (c : Bytes) (rows : List FileVersion)
      (r : VersionStore × Result CaptureResult)
      → IsWell k r.0
      → IsBacked k r.0.blobs v.hash
      → Captured k c rows r
      → Overwrites v.hash path c rows (after_pre_image sha256 gzip gunzip v target path false r)
  after-Captured v target path c rows (s, err e) w b h = absurd (err_ok h.done)
  after-Captured v target path c rows (s, ok x) w b h =
      let written = extract_version-Writes k v target path x.version.id s w b in
      record {
        writes = (written.content, written.digest, written.here);
        kept = h.result.version;
        kept_hash = h.hash;
        kept_id = h.id;
        kept_row = written.rows_kept ∙ h.rows_grown;
      }

  -- A version is backed after a capture too.
  capture_keeps :
      (input : CaptureInput) (mtime now : ℕ) (c : Bytes) (s : VersionStore) (hash : String)
      → IsWell k s
      → IsBacked k s.blobs hash
      → get input.source_path s.blobs.outside ≡ some c
      → IsBacked k (capture sha256 gzip gunzip input mtime now false s).0.blobs hash
  unfolding capture step
  capture_keeps input mtime now c s hash w b e =
      subst
        (λ x.
          IsBacked k (capture_content sha256 gzip gunzip input x mtime now false s).0.blobs hash)
        (sym e)
        (rw
          (insert_row-blobs input mtime now s.rows
            (put_file sha256 gzip gunzip (length c) c c false s.blobs))
          (record {
            content = b.content;
            digest = b.digest;
            there =
                step_keeps sha256 gzip gunzip gunzip-gzip sha256-is_digest hash
                  (puts (length c) c false) s.blobs w.intact tt b.there;
          }))

  -- The version of a row is written, whatever is there before.
  over_writes :
      (v : FileVersion) (target path : String) (there : Option Bytes) (mtime now : ℕ)
      (s : VersionStore)
      → IsWell k s
      → IsBacked k s.blobs v.hash
      → get path s.blobs.outside ≡ there
      → (c : Bytes) × (sha256 c ≡ v.hash)
        × (get path
              (restore_over sha256 gzip gunzip v target path there mtime now false
                s).0.blobs.outside
            ≡ some c)
  over_writes v target path none mtime now s w b e =
      let written = extract_version-Writes k v target path 0 s w b in
      (written.content, written.digest, written.here)
  over_writes v target path (some old) mtime now s w b e =
      let input = pre_image v target path in
      let c = capture-Captured k input mtime now old s e in
      (after-Captured v target path old s.rows _ (capture-IsWell k input mtime now false s w)
        (capture_keeps input mtime now old s v.hash w b e) c).writes

  restore_over_lem :
      (id : ℕ) (v : FileVersion) (resolve : String → Option String) (target path : String)
      (mtime now : ℕ) (s : VersionStore)
      → find_version id s.rows ≡ some v
      → resolve target ≡ some path
      → restore sha256 gzip gunzip id resolve (some target) mtime now false s
        ≡ restore_over sha256 gzip gunzip v target path (get path s.blobs.outside) mtime now false s
  unfolding restore
  restore_over_lem id v resolve target path mtime now s e f =
      ap (λ x. restore_found sha256 gzip gunzip x id resolve (some target) mtime now false s) e
      ∙ ap (λ x. restore_to sha256 gzip gunzip v target x mtime now false s) f

  -- The row of a restored file is written to it.
  restore_writes :
      (id : ℕ) (v : FileVersion) (resolve : String → Option String) (target path : String)
      (mtime now : ℕ) (s : VersionStore)
      → IsWell k s
      → find_version id s.rows ≡ some v
      → resolve target ≡ some path
      → (c : Bytes) × (sha256 c ≡ v.hash)
        × (get path
              (restore sha256 gzip gunzip id resolve
                (some target)
                mtime
                now
                false
                s).0.blobs.outside
            ≡ some c)
  restore_writes id v resolve target path mtime now s w e f =
      rw (restore_over_lem id v resolve target path mtime now s e f) (
        over_writes v target path _ mtime now s w (IsBacked-row k id s.blobs s.rows v e w.backed)
          refl)

  restore_only :
      (id : ℕ) (v : FileVersion) (resolve : String → Option String) (target path : String)
      (mtime now : ℕ) (old : Bytes) (s : VersionStore)
      → IsWell k s
      → find_version id s.rows ≡ some v
      → resolve target ≡ some path
      → v.hash ≡ sha256 old
      → ((c : Bytes) → sha256 c ≡ sha256 old → c ≡ old)
      → get path
          (restore sha256 gzip gunzip id resolve (some target) mtime now false s).0.blobs.outside
        ≡ some old
  restore_only id v resolve target path mtime now old s w e f h only =
      let (c, d, there) = restore_writes id v resolve target path mtime now s w e f in
      there ∙ ap some (only c (d ∙ h))

  restore-Overwrites :
      (id : ℕ) (v : FileVersion) (resolve : String → Option String) (target path : String)
      (mtime now : ℕ) (old : Bytes) (s : VersionStore)
      → IsWell k s
      → find_version id s.rows ≡ some v
      → resolve target ≡ some path
      → get path s.blobs.outside ≡ some old
      → Overwrites v.hash path old s.rows
          (restore sha256 gzip gunzip id resolve (some target) mtime now false s)
  restore-Overwrites id v resolve target path mtime now old s w e f h =
      let input = pre_image v target path in
      let taken = capture-Captured k input mtime now old s h in
      subst (Overwrites v.hash path old s.rows)
        (sym (
          restore_over_lem id v resolve target path mtime now s e f
          ∙ ap (λ x. restore_over sha256 gzip gunzip v target path x mtime now false s) h))
        (after-Captured v target path old s.rows _ (capture-IsWell k input mtime now false s w)
          (capture_keeps input mtime now old s v.hash w
            (IsBacked-row k id s.blobs s.rows v e w.backed) h)
          taken)

  kept_found :
      (rows more : List FileVersion) (v : FileVersion)
      → v.id ≡ next_id rows
      → more ≡ rows ++ v ∷ []
      → find_version (next_id rows) more ≡ some v
  kept_found rows more v e f = rw (sym e, f) (find_version-append_new rows v (ground arith))

  -- A restore over a file whose content is the only one with its digest is undone by restoring the version
  -- that the restore kept of it.
  pub restore_undo :
      (id : ℕ) (v : FileVersion) (resolve : String → Option String) (target path : String)
      (old : Bytes) (mtime now mtime' now' : ℕ) (s : VersionStore)
      → IsWell k s
      → find_version id s.rows ≡ some v
      → resolve target ≡ some path
      → get path s.blobs.outside ≡ some old
      → ((c : Bytes) → sha256 c ≡ sha256 old → c ≡ old)
      → let s' = (restore sha256 gzip gunzip id resolve (some target) mtime now false s).0 in
        ((c : Bytes) × (sha256 c ≡ v.hash) × (get path s'.blobs.outside ≡ some c))
        × (get path
              (restore sha256 gzip gunzip
                (next_id s.rows)
                resolve
                (some target)
                mtime'
                now'
                false
                s').0.blobs.outside
            ≡ some old)
  restore_undo id v resolve target path old mtime now mtime' now' s w e f h only =
      let s' = (restore sha256 gzip gunzip id resolve (some target) mtime now false s).0 in
      let over = restore-Overwrites id v resolve target path mtime now old s w e f h in
      (
        over.writes,
        restore_only (next_id s.rows) over.kept resolve target path mtime' now' old s'
            (restore-IsWell k id resolve (some target) mtime now false s w)
            (kept_found s.rows s'.rows over.kept over.kept_id over.kept_row) f over.kept_hash only,
      )
