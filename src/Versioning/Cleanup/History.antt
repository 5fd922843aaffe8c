-- ===== src/Versioning/Cleanup/History.antt =====
-- The versions of backend/versioning over a history: captures, restores, deletions, passes of the cleanup,
-- sweeps, crashes, and files of the cache that change. Each event is an operation as a whole.
use cnc_network_bridge.Base.{
  ℕ, String, ◌≡◌, refl, Bool, false, Option, List, [], ◌∷◌, any_of, map, length, arith, inl, inr,
  Bool-cases, put, string_eq, str_eq, eq_iff,
}
use cnc_network_bridge.Versioning.Retention.{FileVersion, PruneDecision}
use cnc_network_bridge.Versioning.BlobStore.{
  Bytes, BlobStore, StoredBlob, create, put_buffer, put_file, Op, puts, step, list_digests,
}
use cnc_network_bridge.Versioning.BlobStore
use cnc_network_bridge.Versioning.BlobStore.Coding.{Coding}
use cnc_network_bridge.Versioning.BlobStore.Stored.{put_file-Promised}
use cnc_network_bridge.Versioning.VersionStore.{
  VersionStore, CaptureInput, capture, capture_buffer, restore, delete, set_pinned, has_hash,
  unlink_blob,
}
use cnc_network_bridge.Versioning.VersionStore.Backed.{
  IsWell, AllBacked, capture-IsWell, delete-IsWell, set_pinned-IsWell, step-IsWell, put_keeps_all,
  AllKept, insert_row-IsWell, unlink_blob-IsWell,
}
use cnc_network_bridge.Versioning.VersionStore.Restore.{restore-IsWell}
use cnc_network_bridge.Versioning.Cleanup.{
  VersioningConfig, run, dry_run, delete_all, sweep_all, sweep_unless, sweep_orphans,
}

pub data Event : Type 0 where
  captures : CaptureInput → ℕ → ℕ → Bool → Event
  captures_buffer : CaptureInput → Bytes → ℕ → ℕ → Bool → Event
  restores : ℕ → (String → Option String) → Option String → ℕ → ℕ → Bool → Event
  deletes : ℕ → Event
  pins : ℕ → Bool → Event
  cleans : VersioningConfig → List (Option ℕ) → ℕ → Option ℕ → Event
  sweeps : Event
  -- A crash after the blob, and before its row.
  stores : Bytes → Event
  -- A crash while a blob is written.
  crashes : Bytes → Event
  -- A file of the cache that someone writes.
  writes : String → Bytes → Event

abbrev pub new_store : ℕ → VersionStore
new_store threshold = record { blobs = create threshold; rows = [] }

abbrev with_outside : String → Bytes → BlobStore → BlobStore
with_outside path c blobs = record blobs { outside = put path c blobs.outside }

module _ (sha256 : Bytes → String) (gzip : Bytes → Bytes) (gunzip : Bytes → Option Bytes) where
  unfoldable pub apply : Event → VersionStore → VersionStore
  apply (captures input mtime now fails) s = (capture sha256 gzip gunzip input mtime now fails s).0
  apply (captures_buffer input c mtime now fails) s =
      (capture_buffer sha256 gzip gunzip input c mtime now fails s).0
  apply (restores id resolve target mtime now fails) s =
      (restore sha256 gzip gunzip id resolve target mtime now fails s).0
  apply (deletes id) s = (delete id s).0
  apply (pins id b) s = (set_pinned id b s).0
  apply (cleans config conflicts now share_id) s = (run config conflicts now share_id s).0
  apply sweeps s = (sweep_orphans s).0
  apply (stores c) s = record s {
    blobs = step sha256 gzip gunzip (puts (length c) c false) s.blobs;
  }
  apply (crashes c) s = record s {
    blobs = step sha256 gzip gunzip (BlobStore.Op.crashes c) s.blobs;
  }
  apply (writes path c) s = record s { blobs = with_outside path c s.blobs }

  unfoldable pub apply_all : List Event → VersionStore → VersionStore
  unfolding apply
  apply_all [] s = s
  apply_all (x ∷ xs) s = apply_all xs (apply x s)

live_cited :
    (hash : String) (rows : List FileVersion)
    → any_of (str_eq hash) (map (λ (v : FileVersion). v.hash) rows) ≡ false
    → any_of (has_hash hash) rows ≡ false
live_cited hash [] e = refl
live_cited hash (v ∷ vs) e =
    ground (arith, e, live_cited hash vs, eq_iff hash v.hash, eq_iff v.hash hash)

module _ (k : Coding) where
  open k use {sha256, gzip, gunzip, gunzip-gzip, sha256-is_digest}

  delete_all-IsWell :
      (ds : List PruneDecision) (s : VersionStore) → IsWell k s → IsWell k (delete_all ds s).0
  unfolding delete_all
  delete_all-IsWell [] s w = w
  delete_all-IsWell (d ∷ ds) s w =
      delete_all-IsWell ds (delete d.version.id s).0 (delete-IsWell k d.version.id s w)

  run-IsWell :
      (config : VersioningConfig) (conflicts : List (Option ℕ)) (now : ℕ) (share_id : Option ℕ)
      (s : VersionStore)
      → IsWell k s
      → IsWell k (run config conflicts now share_id s).0
  unfolding run
  run-IsWell config conflicts now share_id s w = elim (Bool-cases config.enabled) [
    | inl on ↦ rw on (delete_all-IsWell (dry_run config conflicts now share_id s).plan.prune s w)
    | inr off ↦ rw off w
  ]

  -- The sweep deletes no blob of a row that was there when it read the live digests.
  sweep_all-IsWell :
      (rows : List FileVersion) (hashes : List String) (blobs : BlobStore)
      → IsWell k (record { blobs = blobs; rows = rows })
      → IsWell k (record {
        blobs = (sweep_all (map (λ (v : FileVersion). v.hash) rows) hashes blobs).0;
        rows = rows;
      })
  unfolding sweep_all unlink_blob
  sweep_all-IsWell rows [] blobs w = w
  sweep_all-IsWell rows (h ∷ hs) blobs w =
      elim (Bool-cases (any_of (str_eq h) (map (λ (v : FileVersion). v.hash) rows))) [
        | inl live ↦ rw live (sweep_all-IsWell rows hs blobs w)
        | inr dead ↦ rw dead (
            sweep_all-IsWell rows hs (BlobStore.delete h blobs).0 (
              unlink_blob-IsWell k h (record { blobs = blobs; rows = rows })
                (live_cited h rows dead) w))
      ]

  sweep_orphans-IsWell : (s : VersionStore) → IsWell k s → IsWell k (sweep_orphans s).0
  unfolding sweep_orphans sweep_unless
  sweep_orphans-IsWell s w = sweep_all-IsWell s.rows (list_digests s.blobs) s.blobs w

  capture_buffer-IsWell :
      (input : CaptureInput) (c : Bytes) (mtime now : ℕ) (fails : Bool) (s : VersionStore)
      → IsWell k s
      → IsWell k (capture_buffer sha256 gzip gunzip input c mtime now fails s).0
  unfolding capture_buffer put_buffer step
  capture_buffer-IsWell input c mtime now fails s w =
      let kept =
        step-IsWell k (puts (length c) c fails) s tt (put_keeps_all k (length c) c fails s.rows)
          w in
      insert_row-IsWell k input mtime now c s.rows
        (put_file sha256 gzip gunzip (length c) c c fails s.blobs) kept.intact kept.backed
        (put_file-Promised k (length c) c fails s.blobs)

  outside-AllBacked :
      (path : String) (c : Bytes) (blobs : BlobStore) (rows : List FileVersion)
      → AllBacked k blobs rows
      → AllBacked k (with_outside path c blobs) rows
  outside-AllBacked path c blobs [] h = tt
  outside-AllBacked path c blobs (v ∷ vs) (b, bs) = (
    record { content = b.content; digest = b.digest; there = b.there },
    outside-AllBacked path c blobs vs bs,
  )

  crash_keeps_all : (c : Bytes) (rows : List FileVersion) → AllKept k (BlobStore.Op.crashes c) rows
  crash_keeps_all c [] = tt
  crash_keeps_all c (v ∷ vs) = (tt, crash_keeps_all c vs)

  pub apply-IsWell :
      (x : Event) (s : VersionStore) → IsWell k s → IsWell k (apply sha256 gzip gunzip x s)
  unfolding apply
  apply-IsWell (captures input mtime now fails) s w = capture-IsWell k input mtime now fails s w
  apply-IsWell (captures_buffer input c mtime now fails) s w =
      capture_buffer-IsWell input c mtime now fails s w
  apply-IsWell (restores id resolve target mtime now fails) s w =
      restore-IsWell k id resolve target mtime now fails s w
  apply-IsWell (deletes id) s w = delete-IsWell k id s w
  apply-IsWell (pins id b) s w = set_pinned-IsWell k id b s w
  apply-IsWell (cleans config conflicts now share_id) s w =
      run-IsWell config conflicts now share_id s w
  apply-IsWell sweeps s w = sweep_orphans-IsWell s w
  apply-IsWell (stores c) s w =
      step-IsWell k (puts (length c) c false) s tt (put_keeps_all k (length c) c false s.rows) w
  apply-IsWell (crashes c) s w =
      step-IsWell k (BlobStore.Op.crashes c) s tt (crash_keeps_all c s.rows) w
  apply-IsWell (writes path c) s w = record {
    intact = record {
      raw_map = w.intact.raw_map;
      gz_map = w.intact.gz_map;
      raw_sound = w.intact.raw_sound;
      gz_sound = w.intact.gz_sound;
    };
    backed = outside-AllBacked path c s.blobs s.rows w.backed;
  }

  pub apply_all-IsWell :
      (xs : List Event) (s : VersionStore)
      → IsWell k s
      → IsWell k (apply_all sha256 gzip gunzip xs s)
  unfolding apply_all
  apply_all-IsWell [] s w = w
  apply_all-IsWell (x ∷ xs) s w =
      apply_all-IsWell xs (apply sha256 gzip gunzip x s) (apply-IsWell x s w)
