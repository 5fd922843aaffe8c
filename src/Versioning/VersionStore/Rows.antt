-- ===== src/Versioning/VersionStore/Rows.antt =====
-- The table of versions of backend/versioning/version-store.ts, and what it does to the blobs. The rows are in
-- the order of insertion. A key without AUTOINCREMENT is one more than the greatest there is.
use cnc_network_bridge.Base.{
  ℕ, zero, suc, String, Bool, true, false, not, ◌&&◌, Option, none, some, List, [], ◌∷◌, ◌++◌, ◌==◌,
  if◌then◌else◌, str_eq, length, map, filter_by, any_of, string_eq, max, or_else,
}
use cnc_network_bridge.Versioning.Retention.{FileVersion, VersionOrigin, sort_versions}
use cnc_network_bridge.Versioning.BlobStore.{
  Bytes, BlobStore, StoredBlob, StoreError, put_file, put_buffer, read_all, extract_to,
}
use cnc_network_bridge.Versioning.BlobStore

pub record VersionStore : Type 0 where
  pub blobs : BlobStore
  pub rows : List FileVersion

pub data VersionError : Type 0 where
  version_not_found : ℕ → VersionError
  path_escapes : String → VersionError
  source_missing : VersionError
  store_failed : StoreError → VersionError

pub data Result (A : Type 0) : Type 0 where
  ok : A → Result A
  err : VersionError → Result A

pub record CaptureInput : Type 0 where
  pub share_id : ℕ
  pub rel_path : String
  pub source_path : String
  pub origin : VersionOrigin
  pub reason : Option String

pub record CaptureResult : Type 0 where
  pub version : FileVersion
  pub blob : StoredBlob
  pub deduplicated : Bool

abbrev pub greatest : List FileVersion → ℕ
greatest [] = 0
greatest (v ∷ vs) = max v.id (greatest vs)

abbrev pub next_id : List FileVersion → ℕ
next_id rows = suc (greatest rows)

abbrev pub version_of : CaptureInput → StoredBlob → ℕ → ℕ → List FileVersion → FileVersion
version_of input blob mtime now rows = record {
  id = next_id rows;
  share_id = input.share_id;
  rel_path = input.rel_path;
  hash = blob.hash;
  size = blob.size;
  mtime = mtime;
  origin = input.origin;
  reason = input.reason;
  created_at = now;
  pinned = false;
}

-- The row, once the blob is there.
abbrev pub insert_row :
    CaptureInput
    → ℕ
    → ℕ
    → List FileVersion
    → BlobStore × BlobStore.Result StoredBlob
    → VersionStore × Result CaptureResult
insert_row input mtime now rows (blobs, BlobStore.err e) =
    (record { blobs = blobs; rows = rows }, err (store_failed e))
insert_row input mtime now rows (blobs, BlobStore.ok blob) =
    let v = version_of input blob mtime now rows in
    (
      record { blobs = blobs; rows = rows ++ v ∷ [] },
      ok (record { version = v; blob = blob; deduplicated = not blob.created }),
    )

unfoldable pub find_version : ℕ → List FileVersion → Option FileVersion
find_version id [] = none
find_version id (v ∷ vs) = let rest = find_version id vs in if v.id == id then some v else rest

pub record ListVersionsOptions : Type 0 where
  pub share_id : Option ℕ
  pub rel_path : Option String
  pub limit : Option ℕ
  pub offset : Option ℕ

abbrev pub of_share : Option ℕ → FileVersion → Bool
of_share none v = true
of_share (some id) v = v.share_id == id

abbrev pub of_path : Option String → FileVersion → Bool
of_path none v = true
of_path (some p) v = str_eq v.rel_path p

abbrev pub take : ℕ → List FileVersion → List FileVersion
take zero vs = []
take (suc n) [] = []
take (suc n) (v ∷ vs) = v ∷ take n vs

abbrev pub drop : ℕ → List FileVersion → List FileVersion
drop zero vs = vs
drop (suc n) [] = []
drop (suc n) (v ∷ vs) = drop n vs

pub record VersionPage : Type 0 where
  pub items : List FileVersion
  pub total : ℕ

-- Newest first, which is the order of the retention's sort.
unfoldable pub list_versions : ListVersionsOptions → VersionStore → VersionPage
list_versions options s =
    let chosen =
      filter_by (λ v. of_share options.share_id v && of_path options.rel_path v) s.rows in
    record {
      items =
          take (or_else options.limit 50) (drop (or_else options.offset 0) (sort_versions chosen));
      total = length chosen;
    }

abbrev pub require : ℕ → List FileVersion → Result FileVersion
require id rows = elim (find_version id rows) [ none ↦ err (version_not_found id) | some v ↦ ok v ]

abbrev pub pin : ℕ → Bool → FileVersion → FileVersion
pin id pinned v = if v.id == id then record v { pinned = pinned } else v

unfoldable pub set_pinned : ℕ → Bool → VersionStore → VersionStore × Result FileVersion
unfolding find_version
set_pinned id pinned s =
    let rows = map (pin id pinned) s.rows in (record s { rows = rows }, require id rows)

abbrev pub is_other : ℕ → FileVersion → Bool
is_other id v = not (v.id == id)

abbrev pub has_hash : String → FileVersion → Bool
has_hash hash v = str_eq v.hash hash

-- The transaction of `delete`: the row goes, and the test whether any other has its digest.
unfoldable pub delete_row : FileVersion → VersionStore → VersionStore × Bool
delete_row v s =
    let rest = filter_by (is_other v.id) s.rows in
    (record s { rows = rest }, not (any_of (has_hash v.hash) rest))

abbrev pub deleted_blob : BlobStore.Result Bool → Result Bool
deleted_blob (BlobStore.ok b) = ok b
deleted_blob (BlobStore.err e) = err (store_failed e)

-- The rest of `delete`, after the transaction.
unfoldable pub unlink_blob : String → VersionStore → VersionStore × Result Bool
unlink_blob hash s =
    let (blobs, result) = BlobStore.delete hash s.blobs in
    (record s { blobs = blobs }, deleted_blob result)

abbrev pub delete_found : Option FileVersion → ℕ → VersionStore → VersionStore × Result Bool
delete_found none id s = (s, err (version_not_found id))
delete_found (some v) id s =
    let (s', orphaned) = delete_row v s in
    if orphaned then unlink_blob v.hash s' else (s', ok false)

unfoldable pub delete : ℕ → VersionStore → VersionStore × Result Bool
unfolding find_version delete_row unlink_blob
delete id s = delete_found (find_version id s.rows) id s

-- `allForShare`
abbrev pub all_for_share : Option ℕ → VersionStore → List FileVersion
all_for_share share_id s = filter_by (of_share share_id) s.rows

-- A set, of which only membership counts.
abbrev pub live_hashes : VersionStore → List String
live_hashes s = map (λ v. v.hash) s.rows

-- `referencedVersionIds`, of the column of the table of conflicts.
unfoldable pub referenced_version_ids : List (Option ℕ) → List ℕ
referenced_version_ids [] = []
referenced_version_ids (none ∷ ids) = referenced_version_ids ids
referenced_version_ids (some id ∷ ids) = id ∷ referenced_version_ids ids
