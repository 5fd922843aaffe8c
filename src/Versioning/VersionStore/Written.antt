-- ===== src/Versioning/VersionStore/Written.antt =====
-- What a capture of backend/versioning/version-store.ts keeps, and what an extraction writes.
use text.Mathlib.TextPositions.{eq_refl}
use cnc_network_bridge.Base.{
  ℕ, ◌≤◌, ◌<◌, String, ◌≡◌, refl, sym, ap, ◌∙◌, false, Option, none, some, List, [], ◌∷◌, ◌++◌,
  ◌==◌, length, inl, inr, Bool-cases, arith, get, get-put, string_eq, subst,
}
use cnc_network_bridge.Versioning.Retention.{FileVersion}
use cnc_network_bridge.Versioning.BlobStore.{
  Bytes, BlobStore, StoredBlob, put_file, extract_to, puts, step,
}
use cnc_network_bridge.Versioning.BlobStore
use cnc_network_bridge.Versioning.BlobStore.Coding.{Coding}
use cnc_network_bridge.Versioning.BlobStore.Stored.{
  present-Reads, Promised, put_file-Promised, Succeeds, put_file-Succeeds,
}
use cnc_network_bridge.Versioning.VersionStore.{
  VersionStore, VersionError, Result, ok, err, CaptureInput, CaptureResult, capture,
  capture_content, find_version, extract_version, extract_result, Restored, open_content,
  content_found, opened, next_id, greatest, insert_row,
}
use cnc_network_bridge.Versioning.VersionStore.Backed.{IsBacked, AllBacked, IsWell}

find_version_bound :
    (id : ℕ) (rows : List FileVersion) (v : FileVersion)
    → find_version id rows ≡ some v
    → id ≤ greatest rows
unfolding find_version
find_version_bound id [] v e = absurd (cc)
find_version_bound id (w ∷ ws) v e = ground (arith, find_version_bound id ws v)

-- A new row does not hide the old ones, and is found by its id.
find_version-append_old :
    (id : ℕ) (rows more : List FileVersion) (v : FileVersion)
    → find_version id rows ≡ some v
    → find_version id (rows ++ more) ≡ some v
unfolding find_version
find_version-append_old id [] more v e = absurd (cc)
find_version-append_old id (w ∷ ws) more v e = ground (arith, find_version-append_old id ws more v)

pub find_version-append_new :
    (rows : List FileVersion) (v : FileVersion)
    → greatest rows < v.id
    → find_version v.id (rows ++ v ∷ []) ≡ some v
unfolding find_version
find_version-append_new [] v h = ground arith
find_version-append_new (w ∷ ws) v h = ground (arith, find_version-append_new ws v)

pub insert_row-blobs :
    (input : CaptureInput) (mtime now : ℕ) (rows : List FileVersion)
    (r : BlobStore × BlobStore.Result StoredBlob)
    → (insert_row input mtime now rows r).0.blobs ≡ r.0
insert_row-blobs input mtime now rows (blobs, BlobStore.err e) = refl
insert_row-blobs input mtime now rows (blobs, BlobStore.ok blob) = refl

pub err_ok : {A : Type 0} {e : VersionError} {a : A} → err e ≡ ok a → ⊥
err_ok h = absurd (cc)

abbrev hash_or : FileVersion → Option FileVersion → String
hash_or w none = w.hash
hash_or w (some v) = v.hash

module _ (k : Coding) where
  open k use {sha256, gzip, gunzip, gunzip-gzip, sha256-is_digest}

  pub IsBacked-row :
      (id : ℕ) (blobs : BlobStore) (rows : List FileVersion) (v : FileVersion)
      → find_version id rows ≡ some v
      → AllBacked k blobs rows
      → IsBacked k blobs v.hash
  unfolding find_version
  IsBacked-row id blobs [] v e b = absurd (cc)
  IsBacked-row id blobs (w ∷ ws) v e (b, bs) = elim (Bool-cases (w.id == id)) [
    | inl here ↦
        let same : some w ≡ some v = sym (rw here refl) ∙ e in
        subst (λ o. IsBacked k blobs (hash_or w o)) same b
    | inr there ↦
        let rest : find_version id ws ≡ some v = sym (rw there refl) ∙ e in
        IsBacked-row id blobs ws v rest bs
  ]

  pub opens_found :
      (id : ℕ) (s : VersionStore) (v : FileVersion)
      → find_version id s.rows ≡ some v
      → IsWell k s
      → (c : Bytes) × (sha256 c ≡ v.hash) × (open_content sha256 gzip gunzip id s ≡ ok c)
  unfolding open_content
  opens_found id s v e w =
      let b = IsBacked-row id s.blobs s.rows v e w.backed in
      let reads = present-Reads k b.content v.hash "" s.blobs b.digest w.intact b.there in
      (
        reads.content,
        reads.digest,
        ap (λ x. content_found sha256 gzip gunzip x id s) e
            ∙ ap (opened sha256 gzip gunzip) reads.all_read,
      )

  -- The extraction of a row's version writes content of its digest, and nothing else moves.
  pub record Writes (hash path : String) (rows : List FileVersion)
      (r : VersionStore × Result Restored) : Type 0 where
    pub content : Bytes
    pub digest : sha256 content ≡ hash
    pub here : get path r.0.blobs.outside ≡ some content
    pub rows_kept : r.0.rows ≡ rows

  pub extract_version-Writes :
      (v : FileVersion) (target path : String) (pre : ℕ) (s : VersionStore)
      → IsWell k s
      → IsBacked k s.blobs v.hash
      → Writes v.hash path s.rows (extract_version sha256 gzip gunzip v target path pre false s)
  extract_version-Writes v target path pre s w b =
      let reads = present-Reads k b.content v.hash path s.blobs b.digest w.intact b.there in
      subst (λ r. Writes v.hash path s.rows (extract_result sha256 gzip gunzip target pre s.rows r))
        (sym reads.written)
        (record {
          content = reads.content;
          digest = reads.digest;
          here = get-put path path reads.content s.blobs.outside ∙ rw (eq_refl path) refl;
          rows_kept = refl;
        })

  -- The row that keeps what is overwritten.
  pub record Captured (c : Bytes) (rows : List FileVersion)
      (r : VersionStore × Result CaptureResult) : Type 0 where
    pub result : CaptureResult
    pub done : r.1 ≡ ok result
    pub hash : result.version.hash ≡ sha256 c
    pub id : result.version.id ≡ next_id rows
    pub rows_grown : r.0.rows ≡ rows ++ result.version ∷ []

  insert_row-Captured :
      (input : CaptureInput) (mtime now : ℕ) (c : Bytes) (rows : List FileVersion)
      (r : BlobStore × BlobStore.Result StoredBlob)
      → Promised k c r
      → Succeeds k r
      → Captured c rows (insert_row input mtime now rows r)
  insert_row-Captured input mtime now c rows (blobs, BlobStore.err e) p ok_ = absurd ok_
  insert_row-Captured input mtime now c rows (blobs, BlobStore.ok blob) p ok_ = record {
    result = _;
    done = refl;
    hash = p.0;
    id = refl;
    rows_grown = refl;
  }

  pub capture-Captured :
      (input : CaptureInput) (mtime now : ℕ) (c : Bytes) (s : VersionStore)
      → get input.source_path s.blobs.outside ≡ some c
      → Captured c s.rows (capture sha256 gzip gunzip input mtime now false s)
  unfolding capture
  capture-Captured input mtime now c s e =
      subst (λ x. Captured c s.rows (capture_content sha256 gzip gunzip input x mtime now false s))
        (sym e)
        (insert_row-Captured input mtime now c s.rows
          (put_file sha256 gzip gunzip (length c) c c false s.blobs)
          (put_file-Promised k (length c) c false s.blobs)
          (put_file-Succeeds k (length c) c s.blobs))
