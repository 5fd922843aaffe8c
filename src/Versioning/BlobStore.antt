-- ===== src/Versioning/BlobStore.antt =====
-- backend/versioning/blob-store.ts: the versions' contents, each at the digest of its content. The tree
-- of directories is left out: a digest has at most a raw file and a gzipped file, so the store is a map
-- of each kind, and the files that a crash left half-written. The digest function and the compression
-- belong to other libraries and are parameters, and so is whether a write to the disk fails.
pub mod Sound
pub mod Roundtrip
pub mod Coding
pub mod Stored
pub mod Extract
mod Tests
use Prim.Native.Char.{code}
use cnc_network_bridge.Base.{
  ℕ, zero, suc, ◌+◌, String, Bool, true, false, ◌&&◌, ◌||◌, Option, none, some, List, [], ◌∷◌, ◌++◌,
  leb, ltb, if◌then◌else◌, str_eq, length, map, filter_by, Dict, get, put, remove, string_eq,
}

abbrev pub Bytes : Type 0
Bytes = List ℕ

pub record BlobStore : Type 0 where
  pub compress_threshold : ℕ
  pub raw : Dict String Bytes
  pub gz : Dict String Bytes
  -- The temp files that a crash left.
  pub temps : List Bytes
  -- The files outside the store, which `extractTo` writes.
  pub outside : Dict String Bytes

pub record StoredBlob : Type 0 where
  pub hash : String
  pub size : ℕ
  pub stored_size : ℕ
  pub compressed : Bool
  pub created : Bool

pub record BlobStoreStats : Type 0 where
  pub blobs : ℕ
  pub bytes_on_disk : ℕ

pub data StoreError : Type 0 where
  not_a_digest blob_not_found : String → StoreError
  blob_corrupt : String → String → StoreError
  -- The file system, or gunzip, fails.
  io_failed : StoreError

pub data Result (A : Type 0) : Type 0 where
  ok : A → Result A
  err : StoreError → Result A

-- What `locate` finds: the bytes on the disk, and whether they are compressed.
pub record Located : Type 0 where
  pub stored : Bytes
  pub compressed : Bool

unfoldable pub create : ℕ → BlobStore
create threshold = record {
  compress_threshold = threshold;
  raw = [];
  gz = [];
  temps = [];
  outside = [];
}

abbrev is_hex : ℕ → Bool
is_hex c = leb b'0' c && leb c b'9' || leb b'a' c && leb c b'f'

-- `/^[0-9a-f]{64}$/`, with what is still to come.
unfoldable pub hex_run : ℕ → String → Bool
hex_run zero String.[] = true
hex_run zero (String.◌∷◌ c s) = false
hex_run (suc n) String.[] = false
hex_run (suc n) (String.◌∷◌ c s) = is_hex (code c) && hex_run n s

abbrev pub is_digest : String → Bool
is_digest hash = hex_run 64 hash

abbrev pub found_gz : Option Bytes → Option Located
found_gz none = none
found_gz (some z) = some (record { stored = z; compressed = true })

abbrev pub found : Option Bytes → Option Bytes → Option Located
found (some c) zipped = some (record { stored = c; compressed = false })
found none zipped = found_gz zipped

-- Raw before gzip.
unfoldable pub locate : String → BlobStore → Result (Option Located)
locate hash s =
    if is_digest hash then ok (found (get hash s.raw) (get hash s.gz)) else err (not_a_digest hash)

-- A file of the store takes its place under its name.
abbrev place : String → Bytes → Bool → BlobStore → BlobStore
place hash bytes true s = record s { gz = put hash bytes s.gz }
place hash bytes false s = record s { raw = put hash bytes s.raw }

abbrev without : String → Bool → BlobStore → BlobStore
without hash true s = record s { gz = remove hash s.gz }
without hash false s = record s { raw = remove hash s.raw }

abbrev pub delete_found : String → BlobStore → Result (Option Located) → BlobStore × Result Bool
delete_found hash s (err e) = (s, err e)
delete_found hash s (ok none) = (s, ok false)
delete_found hash s (ok (some l)) = (without hash l.compressed s, ok true)

unfoldable pub delete : String → BlobStore → BlobStore × Result Bool
delete hash s = delete_found hash s (locate hash s)

abbrev keys : Dict String Bytes → List String
keys d = map (λ e. e.0) d

-- The digests, of which a directory lists those that it has in some order.
unfoldable pub list_digests : BlobStore → List String
list_digests s = filter_by is_digest (keys s.raw ++ keys s.gz)

abbrev sizes : List Bytes → ℕ
sizes [] = 0
sizes (b ∷ bs) = length b + sizes bs

-- Every file of a bucket counts, a temp file too.
pub stats : BlobStore → BlobStoreStats
stats s =
    let files = map (λ e. e.1) (s.raw ++ s.gz) ++ s.temps in
    record { blobs = length files; bytes_on_disk = sizes files }

unfoldable pub sweep_temp : BlobStore → BlobStore × ℕ
sweep_temp s = (record s { temps = [] }, length s.temps)

-- What happens to a store: a put of a file of some size whose content does not change meanwhile, or of
-- a buffer; a put of a file that changes between the read for its digest and the one for the copy; an extraction; a deletion; a crash that leaves a temp file; and the sweep. The flags say
-- whether the disk fails.
pub data Op : Type 0 where
  puts : ℕ → Bytes → Bool → Op
  puts_moving : ℕ → Bytes → Bytes → Bool → Op
  extracts : String → String → Bool → Op
  deletes : String → Op
  crashes : Bytes → Op
  sweeps : Op

module _ (sha256 : Bytes → String) (gzip : Bytes → Bytes) (gunzip : Bytes → Option Bytes) where
  -- `writeAtomically`, for content that is read from its source here.
  abbrev write_atomically : String → Bytes → Bool → Bool → BlobStore → BlobStore × Result ℕ
  write_atomically hash content compress fails s =
      let bytes = if compress then gzip content else content in
      if fails then (s, err io_failed) else (place hash bytes compress s, ok (length bytes))

  abbrev after_write : String → ℕ → Bool → BlobStore × Result ℕ → BlobStore × Result StoredBlob
  after_write hash size compress (s, err e) = (s, err e)
  after_write hash size compress (s, ok n) = (
    s,
    ok (record {
      hash = hash;
      size = size;
      stored_size = n;
      compressed = compress;
      created = true;
    }),
  )

  abbrev put_found :
      String
      → ℕ
      → Bytes
      → Bool
      → BlobStore
      → Result (Option Located)
      → BlobStore × Result StoredBlob
  put_found digest size copied fails s (err e) = (s, err e)
  put_found digest size copied fails s (ok (some l)) = (
    s,
    ok (record {
      hash = digest;
      size = size;
      stored_size = length l.stored;
      compressed = l.compressed;
      created = false;
    }),
  )
  put_found digest size copied fails s (ok none) =
      let compress = ltb 0 s.compress_threshold && leb s.compress_threshold size in
      after_write digest size compress (write_atomically digest copied compress fails s)

  -- `putFile` of a file that has a size, and whose content is first read for the digest and then for the
  -- copy.
  unfoldable pub put_file : ℕ → Bytes → Bytes → Bool → BlobStore → BlobStore × Result StoredBlob
  put_file size hashed copied fails s =
      let digest = sha256 hashed in put_found digest size copied fails s (locate digest s)

  unfoldable pub put_buffer : Bytes → Bool → BlobStore → BlobStore × Result StoredBlob
  unfolding put_file
  put_buffer content fails s = put_file (length content) content content fails s

  -- What a reader of a stored file gets.
  abbrev pub decoded : Located → Option Bytes
  decoded l = if l.compressed then gunzip l.stored else some l.stored

  abbrev read_located : Option Bytes → Result Bytes
  read_located none = err io_failed
  read_located (some c) = ok c

  abbrev read_found : String → Result (Option Located) → Result Bytes
  read_found hash (err e) = err e
  read_found hash (ok none) = err (blob_not_found hash)
  read_found hash (ok (some l)) = read_located (decoded l)

  unfoldable pub read_all : String → BlobStore → Result Bytes
  read_all hash s = read_found hash (locate hash s)

  -- `copyAndHash`: the content, if its digest is the expected one.
  abbrev copy_and_hash : String → Option Bytes → Result Bytes
  copy_and_hash expected none = err io_failed
  copy_and_hash expected (some c) =
      if str_eq (sha256 c) expected then ok c else err (blob_corrupt expected (sha256 c))

  abbrev rename_to : String → BlobStore → Result Bytes → BlobStore × Result ℕ
  rename_to destination s (err e) = (s, err e)
  rename_to destination s (ok c) =
      (record s { outside = put destination c s.outside }, ok (length c))

  abbrev extract_found :
      String → String → Bool → BlobStore → Result (Option Located) → BlobStore × Result ℕ
  extract_found hash destination fails s (err e) = (s, err e)
  extract_found hash destination fails s (ok none) = (s, err (blob_not_found hash))
  extract_found hash destination true s (ok (some l)) = (s, err io_failed)
  extract_found hash destination false s (ok (some l)) =
      rename_to destination s (copy_and_hash hash (decoded l))

  unfoldable pub extract_to : String → String → Bool → BlobStore → BlobStore × Result ℕ
  extract_to hash destination fails s = extract_found hash destination fails s (locate hash s)

  abbrev verify_decoded : String → Option Bytes → Result Bool
  verify_decoded hash none = err io_failed
  verify_decoded hash (some c) = ok (str_eq (sha256 c) hash)

  abbrev verify_found : String → Result (Option Located) → Result Bool
  verify_found hash (err e) = err e
  verify_found hash (ok none) = ok false
  verify_found hash (ok (some l)) = verify_decoded hash (decoded l)

  unfoldable pub verify : String → BlobStore → Result Bool
  verify hash s = verify_found hash (locate hash s)

  unfoldable pub step : Op → BlobStore → BlobStore
  step (puts size content fails) s = (put_file size content content fails s).0
  step (puts_moving size first second fails) s = (put_file size first second fails s).0
  step (extracts hash destination fails) s = (extract_to hash destination fails s).0
  step (deletes hash) s = (delete hash s).0
  step (crashes bytes) s = record s { temps = bytes ∷ s.temps }
  step sweeps s = (sweep_temp s).0

  unfoldable pub run : List Op → BlobStore → BlobStore
  run [] s = s
  run (x ∷ xs) s = run xs (step x s)
