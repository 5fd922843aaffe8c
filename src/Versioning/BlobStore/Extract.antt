-- ===== src/Versioning/BlobStore/Extract.antt =====
-- `extractTo` of backend/versioning/blob-store.ts, on any store.
use text.Mathlib.TextEquality.{eq_iff}
use cnc_network_bridge.Base.{
  ℕ, String, ◌≡◌, Bool, true, false, Option, none, some, str_eq, length, inl, inr, Bool-cases, put,
  string_eq,
}
use cnc_network_bridge.Versioning.BlobStore.{
  Bytes, BlobStore, Located, Result, ok, err, StoreError, locate, decoded, extract_to,
  extract_found, rename_to, copy_and_hash,
}

module _ (sha256 : Bytes → String) (gzip : Bytes → Bytes) (gunzip : Bytes → Option Bytes) where
  -- What an extraction may come to.
  pub data IsHonest (hash destination : String) (s : BlobStore)
      : BlobStore × Result ℕ → Type 0 where
    refused : {e : StoreError} → IsHonest hash destination s (s, err e)
    extracted :
        (c : Bytes)
        → sha256 c ≡ hash
        → IsHonest hash destination s
            (record s { outside = put destination c s.outside }, ok (length c))

  copy-IsHonest :
      (hash destination : String) (s : BlobStore) (content : Option Bytes)
      → IsHonest hash destination s (
          rename_to sha256 gzip gunzip destination s
            (copy_and_hash sha256 gzip gunzip hash content))
  copy-IsHonest hash destination s none = refused
  copy-IsHonest hash destination s (some c) = elim (Bool-cases (str_eq (sha256 c) hash)) [
    | inl same ↦ rw same (extracted c ((eq_iff (sha256 c) hash).0 same))
    | inr differs ↦ rw differs refused
  ]

  found-IsHonest :
      (hash destination : String) (fails : Bool) (s : BlobStore) (r : Result (Option Located))
      → IsHonest hash destination s (extract_found sha256 gzip gunzip hash destination fails s r)
  found-IsHonest hash destination fails s (err e) = refused
  found-IsHonest hash destination fails s (ok none) = refused
  found-IsHonest hash destination true s (ok (some l)) = refused
  found-IsHonest hash destination false s (ok (some l)) =
      copy-IsHonest hash destination s (decoded sha256 gzip gunzip l)

  -- Whatever the files of the store hold, an extraction either fails and changes nothing, or writes to the
  -- destination, and nowhere else, content whose digest is the one asked for, and says how long it is.
  pub extract_to-IsHonest :
      (hash destination : String) (fails : Bool) (s : BlobStore)
      → IsHonest hash destination s (extract_to sha256 gzip gunzip hash destination fails s)
  unfolding extract_to
  extract_to-IsHonest hash destination fails s =
      found-IsHonest hash destination fails s (locate hash s)
