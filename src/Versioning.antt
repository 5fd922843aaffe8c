-- ===== src/Versioning.antt =====
-- backend/versioning: the history of earlier contents, and what of it is given up.
pub mod Retention
pub mod BlobStore
pub mod VersionStore
pub mod Cleanup
pub mod Engine
pub mod Sample
mod Tests
