-- ===== src/Versioning/VersionStore/Unique.antt =====
-- The ids of the rows of backend/versioning/version-store.ts are different.
use mathlib.Core.List.{Memᴰ}
use cnc_network_bridge.Base.{
  ℕ, suc, ◌+◌, ◌≤◌, ◌<◌, ◌≡◌, refl, ap, Bool, List, [], ◌∷◌, ◌++◌, ◌==◌, if◌then◌else◌, String,
  Option, none, some, get, or_else, length, string_eq, filter_by, map, arith,
}
use cnc_network_bridge.Versioning.Retention.{FileVersion}
use cnc_network_bridge.Versioning.BlobStore.{
  Bytes, BlobStore, StoredBlob, put_file, put_buffer, extract_to,
}
use cnc_network_bridge.Versioning.BlobStore
use cnc_network_bridge.Versioning.VersionStore.{
  VersionStore, Result, ok, err, CaptureInput, CaptureResult, next_id, greatest, pin, capture,
  capture_content, capture_buffer, insert_row, restore, restore_found, restore_to, restore_over,
  after_pre_image, extract_version, find_version,
}
use cnc_network_bridge.Versioning.VersionStore.Backed.{extract_result-rows}

-- How many rows have an id.
abbrev pub count : ℕ → List FileVersion → ℕ
count id [] = 0
count id (v ∷ vs) = if v.id == id then suc (count id vs) else count id vs

abbrev pub IsUnique : List FileVersion → Type 0
IsUnique rows = (id : ℕ) → count id rows ≤ 1

pub count-append :
    (id : ℕ) (xs ys : List FileVersion) → count id (xs ++ ys) ≡ count id xs + count id ys
count-append id [] ys = omega arith
count-append id (v ∷ vs) ys = ground (arith, count-append id vs ys)

pub count-filter_by-le :
    (id : ℕ) (p : FileVersion → Bool) (xs : List FileVersion)
    → count id (filter_by p xs) ≤ count id xs
count-filter_by-le id p [] = omega arith
count-filter_by-le id p (v ∷ vs) = ground (arith, count-filter_by-le id p vs)

pub filter_by-IsUnique :
    (p : FileVersion → Bool) (rows : List FileVersion) → IsUnique rows → IsUnique (filter_by p rows)
filter_by-IsUnique p rows u id = ground (arith, u id, count-filter_by-le id p rows)

count-pin :
    (i id : ℕ) (b : Bool) (rows : List FileVersion) → count i (map (pin id b) rows) ≡ count i rows
count-pin i id b [] = refl
count-pin i id b (v ∷ vs) = ground (arith, count-pin i id b vs)

pub pin-IsUnique :
    (id : ℕ) (b : Bool) (rows : List FileVersion) → IsUnique rows → IsUnique (map (pin id b) rows)
pin-IsUnique id b rows u i = rw (count-pin i id b rows) (u i)

fresh : (id : ℕ) (rows : List FileVersion) → greatest rows < id → count id rows ≡ 0
fresh id [] h = refl
fresh id (v ∷ vs) h = ground (arith, fresh id vs)

-- A new row takes the next id.
pub append-IsUnique :
    (rows : List FileVersion) (v : FileVersion)
    → v.id ≡ next_id rows
    → IsUnique rows
    → IsUnique (rows ++ v ∷ [])
append-IsUnique rows v e u id =
    ground (arith, e, u id, count-append id rows (v ∷ []), fresh id rows)

pub count_member : (v : FileVersion) (rows : List FileVersion) → Memᴰ v rows → 1 ≤ count v.id rows
count_member v [] m = elim m [ ]
count_member v (w ∷ ws) (Memᴰ.head e) = ground (arith, ap (λ (x : FileVersion). x.id) e)
count_member v (w ∷ ws) (Memᴰ.tail m) = ground (arith, count_member v ws m)

insert_row-IsUnique :
    (input : CaptureInput) (mtime now : ℕ) (rows : List FileVersion)
    (r : BlobStore × BlobStore.Result StoredBlob)
    → IsUnique rows
    → IsUnique (insert_row input mtime now rows r).0.rows
insert_row-IsUnique input mtime now rows (blobs, BlobStore.err e) u = u
insert_row-IsUnique input mtime now rows (blobs, BlobStore.ok blob) u =
    append-IsUnique rows _ refl u

module _ (sha256 : Bytes → String) (gzip : Bytes → Bytes) (gunzip : Bytes → Option Bytes) where
  capture_content-IsUnique :
      (input : CaptureInput) (c : Option Bytes) (mtime now : ℕ) (fails : Bool) (s : VersionStore)
      → IsUnique s.rows
      → IsUnique (capture_content sha256 gzip gunzip input c mtime now fails s).0.rows
  capture_content-IsUnique input none mtime now fails s u = u
  capture_content-IsUnique input (some c) mtime now fails s u =
      insert_row-IsUnique input mtime now s.rows
        (put_file sha256 gzip gunzip (length c) c c fails s.blobs) u

  pub capture-IsUnique :
      (input : CaptureInput) (mtime now : ℕ) (fails : Bool) (s : VersionStore)
      → IsUnique s.rows
      → IsUnique (capture sha256 gzip gunzip input mtime now fails s).0.rows
  unfolding capture
  capture-IsUnique input mtime now fails s u =
      capture_content-IsUnique input (get input.source_path s.blobs.outside) mtime now fails s u

  pub capture_buffer-IsUnique :
      (input : CaptureInput) (c : Bytes) (mtime now : ℕ) (fails : Bool) (s : VersionStore)
      → IsUnique s.rows
      → IsUnique (capture_buffer sha256 gzip gunzip input c mtime now fails s).0.rows
  unfolding capture_buffer
  capture_buffer-IsUnique input c mtime now fails s u =
      insert_row-IsUnique input mtime now s.rows (put_buffer sha256 gzip gunzip c fails s.blobs) u

  extract_version-IsUnique :
      (v : FileVersion) (target path : String) (pre : ℕ) (fails : Bool) (s : VersionStore)
      → IsUnique s.rows
      → IsUnique (extract_version sha256 gzip gunzip v target path pre fails s).0.rows
  extract_version-IsUnique v target path pre fails s u =
      rw
        (extract_result-rows sha256 gzip gunzip target pre s.rows
          (extract_to sha256 gzip gunzip v.hash path fails s.blobs))
        u

  after_pre_image-IsUnique :
      (v : FileVersion) (target path : String) (fails : Bool)
      (r : VersionStore × Result CaptureResult)
      → IsUnique r.0.rows
      → IsUnique (after_pre_image sha256 gzip gunzip v target path fails r).0.rows
  after_pre_image-IsUnique v target path fails (s, err e) u = u
  after_pre_image-IsUnique v target path fails (s, ok c) u =
      extract_version-IsUnique v target path c.version.id fails s u

  restore_over-IsUnique :
      (v : FileVersion) (target path : String) (there : Option Bytes) (mtime now : ℕ) (fails : Bool)
      (s : VersionStore)
      → IsUnique s.rows
      → IsUnique (restore_over sha256 gzip gunzip v target path there mtime now fails s).0.rows
  restore_over-IsUnique v target path none mtime now fails s u =
      extract_version-IsUnique v target path 0 fails s u
  restore_over-IsUnique v target path (some c) mtime now fails s u =
      after_pre_image-IsUnique v target path fails _ (capture-IsUnique _ mtime now fails s u)

  restore_to-IsUnique :
      (v : FileVersion) (target : String) (path : Option String) (mtime now : ℕ) (fails : Bool)
      (s : VersionStore)
      → IsUnique s.rows
      → IsUnique (restore_to sha256 gzip gunzip v target path mtime now fails s).0.rows
  restore_to-IsUnique v target none mtime now fails s u = u
  restore_to-IsUnique v target (some path) mtime now fails s u =
      restore_over-IsUnique v target path _ mtime now fails s u

  restore_found-IsUnique :
      (v : Option FileVersion) (id : ℕ) (resolve : String → Option String) (target : Option String)
      (mtime now : ℕ) (fails : Bool) (s : VersionStore)
      → IsUnique s.rows
      → IsUnique (restore_found sha256 gzip gunzip v id resolve target mtime now fails s).0.rows
  restore_found-IsUnique none id resolve target mtime now fails s u = u
  restore_found-IsUnique (some v) id resolve target mtime now fails s u =
      restore_to-IsUnique v (or_else target v.rel_path) _ mtime now fails s u

  pub restore-IsUnique :
      (id : ℕ) (resolve : String → Option String) (target : Option String) (mtime now : ℕ)
      (fails : Bool) (s : VersionStore)
      → IsUnique s.rows
      → IsUnique (restore sha256 gzip gunzip id resolve target mtime now fails s).0.rows
  unfolding restore
  restore-IsUnique id resolve target mtime now fails s u =
      restore_found-IsUnique (find_version id s.rows) id resolve target mtime now fails s u
