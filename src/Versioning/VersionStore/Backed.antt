-- ===== src/Versioning/VersionStore/Backed.antt =====
-- What stands behind the rows of backend/versioning/version-store.ts.
use text.Mathlib.TextEquality.{eq_iff}
use cnc_network_bridge.Base.{
  ℕ, String, ◌≡◌, refl, sym, Bool, true, false, Option, none, some, List, [], ◌∷◌, ◌==◌, length,
  map, filter_by, any_of, inl, inr, Bool-cases, arith, get, string_eq, All, All-append,
  All-filter_by,
}
use cnc_network_bridge.Versioning.Retention.{FileVersion}
use cnc_network_bridge.Versioning.BlobStore.{
  Bytes, BlobStore, StoredBlob, StoreError, Located, put_file, read_all, extract_to, is_digest,
  locate, Op, puts, extracts, deletes, step,
}
use cnc_network_bridge.Versioning.BlobStore
use cnc_network_bridge.Versioning.BlobStore.Coding.{Coding}
use cnc_network_bridge.Versioning.BlobStore.Sound.{IsIntact, IsStable, step-IsIntact}
use cnc_network_bridge.Versioning.BlobStore.Roundtrip.{IsKept, is_present, step_keeps}
use cnc_network_bridge.Versioning.BlobStore.Stored.{Promised, put_file-Promised}
use cnc_network_bridge.Versioning.VersionStore.{
  VersionStore, CaptureInput, capture, capture_content, insert_row, find_version, delete,
  delete_row, delete_found, unlink_blob, set_pinned, pin, is_other, has_hash, extract_version,
  extract_result,
}

module _ (sha256 : Bytes → String) (gzip : Bytes → Bytes) (gunzip : Bytes → Option Bytes) where
  pub extract_result-rows :
      (target : String) (pre : ℕ) (rows : List FileVersion) (r : BlobStore × BlobStore.Result ℕ)
      → (extract_result sha256 gzip gunzip target pre rows r).0
        ≡ record { blobs = r.0; rows = rows }
  extract_result-rows target pre rows (blobs, BlobStore.err e) = refl
  extract_result-rows target pre rows (blobs, BlobStore.ok n) = refl

module _ (k : Coding) where
  open k use {sha256, gzip, gunzip, gunzip-gzip, sha256-is_digest}

  -- The blob of a digest is there, and it is a digest of something.
  pub record IsBacked (blobs : BlobStore) (hash : String) : Type 0 where
    pub content : Bytes
    pub digest : sha256 content ≡ hash
    pub there : is_present hash blobs ≡ true

  abbrev pub AllBacked : BlobStore → List FileVersion → Type 0
  AllBacked blobs rows = All (λ v. IsBacked blobs v.hash) rows

  -- Every file of the store is sound, and every row has its blob.
  pub record IsWell (s : VersionStore) : Type 0 where
    pub intact : IsIntact sha256 gunzip s.blobs
    pub backed : AllBacked s.blobs s.rows

  abbrev pub step_of : Op → BlobStore → BlobStore
  step_of x blobs = step sha256 gzip gunzip x blobs

  abbrev pub AllKept : Op → List FileVersion → Type 0
  AllKept x rows = All (λ v. IsKept v.hash x) rows

  step-AllBacked :
      (x : Op) (blobs : BlobStore) (rows : List FileVersion)
      → IsIntact sha256 gunzip blobs
      → AllKept x rows
      → AllBacked blobs rows
      → AllBacked (step_of x blobs) rows
  step-AllBacked x blobs [] o h b = tt
  step-AllBacked x blobs (v ∷ vs) o (h, hs) (b, bs) = (
    record {
      content = b.content;
      digest = b.digest;
      there = step_keeps sha256 gzip gunzip gunzip-gzip sha256-is_digest v.hash x blobs o h b.there;
    },
    step-AllBacked x blobs vs o hs bs,
  )

  pub step-IsWell :
      (x : Op) (s : VersionStore)
      → IsStable x
      → AllKept x s.rows
      → IsWell s
      → IsWell (record { blobs = step_of x s.blobs; rows = s.rows })
  step-IsWell x s k h w = record {
    intact = step-IsIntact sha256 gzip gunzip gunzip-gzip sha256-is_digest x s.blobs k w.intact;
    backed = step-AllBacked x s.blobs s.rows w.intact h w.backed;
  }

  pub put_keeps_all :
      (n : ℕ) (c : Bytes) (fails : Bool) (rows : List FileVersion) → AllKept (puts n c fails) rows
  put_keeps_all n c fails [] = tt
  put_keeps_all n c fails (v ∷ vs) = (tt, put_keeps_all n c fails vs)

  extract_keeps_all :
      (h d : String) (fails : Bool) (rows : List FileVersion) → AllKept (extracts h d fails) rows
  extract_keeps_all h d fails [] = tt
  extract_keeps_all h d fails (v ∷ vs) = (tt, extract_keeps_all h d fails vs)

  -- The row that follows a put is backed by it.
  pub insert_row-IsWell :
      (input : CaptureInput) (mtime now : ℕ) (c : Bytes) (rows : List FileVersion)
      (r : BlobStore × BlobStore.Result StoredBlob)
      → IsIntact sha256 gunzip r.0
      → AllBacked r.0 rows
      → Promised k c r
      → IsWell (insert_row input mtime now rows r).0
  insert_row-IsWell input mtime now c rows (blobs, BlobStore.err e) o b p = record {
    intact = o;
    backed = b;
  }
  insert_row-IsWell input mtime now c rows (blobs, BlobStore.ok blob) o b (h, p) = record {
    intact = o;
    backed = All-append _ rows _ b (record { content = c; digest = sym h; there = rw h p }, tt);
  }

  pub capture_content-IsWell :
      (input : CaptureInput) (c : Option Bytes) (mtime now : ℕ) (fails : Bool) (s : VersionStore)
      → IsWell s
      → IsWell (capture_content sha256 gzip gunzip input c mtime now fails s).0
  unfolding step
  capture_content-IsWell input none mtime now fails s w = w
  capture_content-IsWell input (some c) mtime now fails s w =
      let kept =
        step-IsWell (puts (length c) c fails) s tt (put_keeps_all (length c) c fails s.rows) w in
      insert_row-IsWell input mtime now c s.rows
        (put_file sha256 gzip gunzip (length c) c c fails s.blobs) kept.intact kept.backed
        (put_file-Promised k (length c) c fails s.blobs)

  pub capture-IsWell :
      (input : CaptureInput) (mtime now : ℕ) (fails : Bool) (s : VersionStore)
      → IsWell s
      → IsWell (capture sha256 gzip gunzip input mtime now fails s).0
  unfolding capture
  capture-IsWell input mtime now fails s w =
      capture_content-IsWell input (get input.source_path s.blobs.outside) mtime now fails s w

  -- Where no row has a digest, its blob may go.
  delete_keeps_all :
      (h : String) (rows : List FileVersion)
      → any_of (has_hash h) rows ≡ false
      → AllKept (deletes h) rows
  delete_keeps_all h [] e = tt
  delete_keeps_all h (v ∷ vs) e =
      ground (arith, e, delete_keeps_all h vs, eq_iff h v.hash, eq_iff v.hash h)

  pub unlink_blob-IsWell :
      (h : String) (s : VersionStore)
      → any_of (has_hash h) s.rows ≡ false
      → IsWell s
      → IsWell (unlink_blob h s).0
  unfolding unlink_blob step
  unlink_blob-IsWell h s e w = step-IsWell (deletes h) s tt (delete_keeps_all h s.rows e) w

  delete_found-IsWell :
      (v : Option FileVersion) (id : ℕ) (s : VersionStore)
      → IsWell s
      → IsWell (delete_found v id s).0
  unfolding delete_row
  delete_found-IsWell none id s w = w
  delete_found-IsWell (some v) id s w =
      let rest = filter_by (is_other v.id) s.rows in
      let fewer : IsWell (record { blobs = s.blobs; rows = rest }) = record {
        intact = w.intact;
        backed = All-filter_by _ (is_other v.id) s.rows w.backed;
      } in
      elim (Bool-cases (any_of (has_hash v.hash) rest)) [
        | inl shared ↦ rw shared fewer
        | inr last ↦
            rw last (unlink_blob-IsWell v.hash (record { blobs = s.blobs; rows = rest }) last fewer)
      ]

  pub delete-IsWell : (id : ℕ) (s : VersionStore) → IsWell s → IsWell (delete id s).0
  unfolding delete
  delete-IsWell id s w = delete_found-IsWell (find_version id s.rows) id s w

  pin-AllBacked :
      (id : ℕ) (b : Bool) (blobs : BlobStore) (rows : List FileVersion)
      → AllBacked blobs rows
      → AllBacked blobs (map (pin id b) rows)
  pin-AllBacked id b blobs [] h = tt
  pin-AllBacked id b blobs (v ∷ vs) (p, h) =
      let rest = pin-AllBacked id b blobs vs h in
      elim (Bool-cases (v.id == id)) [ inl e ↦ rw e (p, rest) | inr e ↦ rw e (p, rest) ]

  pub set_pinned-IsWell :
      (id : ℕ) (b : Bool) (s : VersionStore) → IsWell s → IsWell (set_pinned id b s).0
  unfolding set_pinned
  set_pinned-IsWell id b s w = record {
    intact = w.intact;
    backed = pin-AllBacked id b s.blobs s.rows w.backed;
  }

  pub extract_version-IsWell :
      (v : FileVersion) (target path : String) (pre : ℕ) (fails : Bool) (s : VersionStore)
      → IsWell s
      → IsWell (extract_version sha256 gzip gunzip v target path pre fails s).0
  unfolding step
  extract_version-IsWell v target path pre fails s w =
      rw
        (extract_result-rows sha256 gzip gunzip target pre s.rows
          (extract_to sha256 gzip gunzip v.hash path fails s.blobs))
        (step-IsWell (extracts v.hash path fails) s tt (extract_keeps_all v.hash path fails s.rows)
          w)
