-- ===== src/Versioning/BlobStore/Coding.antt =====
-- What backend/versioning takes from the libraries for digests and for compression.
use cnc_network_bridge.Base.{String, ◌≡◌, true, Option, some}
use cnc_network_bridge.Versioning.BlobStore.{Bytes, is_digest}

-- The operations, and what is documented of them: compression loses nothing, and a digest is 64 digits
-- and letters.
pub record Coding : Type 0 where
  pub sha256 : Bytes → String
  pub gzip : Bytes → Bytes
  pub gunzip : Bytes → Option Bytes
  pub gunzip-gzip : (c : Bytes) → gunzip (gzip c) ≡ some c
  pub sha256-is_digest : (c : Bytes) → is_digest (sha256 c) ≡ true
