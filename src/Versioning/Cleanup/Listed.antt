-- ===== src/Versioning/Cleanup/Listed.antt =====
-- What a history of backend/versioning promises of the versions that are listed.
use cnc_network_bridge.Base.{
  ℕ, String, ◌≡◌, true, Option, some, List, [], ◌∷◌, filter_by, arith, inl, inr, Bool-cases, All,
}
use cnc_network_bridge.Versioning.Retention.{FileVersion}
use cnc_network_bridge.Versioning.BlobStore.{Bytes}
use cnc_network_bridge.Versioning.BlobStore.Coding.{Coding}
use cnc_network_bridge.Versioning.BlobStore.Sound.{create-IsIntact}
use cnc_network_bridge.Versioning.VersionStore.{
  VersionStore, ok, open_content, find_version, all_for_share, set_pinned, is_other, delete,
}
use cnc_network_bridge.Versioning.VersionStore.Backed.{IsWell}
use cnc_network_bridge.Versioning.VersionStore.Written.{opens_found}
use cnc_network_bridge.Versioning.Cleanup.{
  VersioningConfig, run, dry_run, survives, input_for, sweep_orphans, sweep_unless,
}
use cnc_network_bridge.Versioning.Cleanup.Rows.{delete-rows, delete_all-rows}
use cnc_network_bridge.Versioning.VersionStore.Unique.{
  IsUnique, filter_by-IsUnique, pin-IsUnique, capture-IsUnique, capture_buffer-IsUnique,
  restore-IsUnique,
}
use cnc_network_bridge.Versioning.Cleanup.Spared.{IsOutdone}
use cnc_network_bridge.Versioning.Cleanup.Pass.{run_spares}
use cnc_network_bridge.Versioning.Cleanup.History.{
  Event, captures, captures_buffer, restores, deletes, pins, cleans, sweeps, stores, crashes,
  writes, new_store, apply, apply_all, apply_all-IsWell,
}

module _ (k : Coding) where
  open k use {sha256, gzip, gunzip, gunzip-gzip, sha256-is_digest}

  pub new_store-IsWell : (threshold : ℕ) → IsWell k (new_store threshold)
  new_store-IsWell threshold = record {
    intact = create-IsIntact sha256 gzip gunzip gunzip-gzip sha256-is_digest threshold;
    backed = tt;
  }

  -- Whatever the history, of events that run one after the other as wholes, on files that do not change while
  -- they are read: the content of a version that is listed can be read, and it has the digest of the version.
  pub listed_opens :
      (threshold : ℕ) (xs : List Event) (id : ℕ) (v : FileVersion)
      → let s = apply_all sha256 gzip gunzip xs (new_store threshold) in
        find_version id s.rows ≡ some v
        → (c : Bytes) × (sha256 c ≡ v.hash) × (open_content sha256 gzip gunzip id s ≡ ok c)
  listed_opens threshold xs id v e =
      let s = apply_all sha256 gzip gunzip xs (new_store threshold) in
      opens_found k id s v e
        (apply_all-IsWell k xs (new_store threshold) (new_store-IsWell threshold))

delete-IsUnique : (id : ℕ) (s : VersionStore) → IsUnique s.rows → IsUnique (delete id s).0.rows
delete-IsUnique id s u = rw (delete-rows id s) (filter_by-IsUnique (is_other id) s.rows u)

run-IsUnique :
    (config : VersioningConfig) (conflicts : List (Option ℕ)) (now : ℕ) (share_id : Option ℕ)
    (s : VersionStore)
    → IsUnique s.rows
    → IsUnique (run config conflicts now share_id s).0.rows
unfolding run
run-IsUnique config conflicts now share_id s u =
    let prune = (dry_run config conflicts now share_id s).plan.prune in
    elim (Bool-cases config.enabled) [
      | inl on ↦ rw (on, delete_all-rows prune s) (filter_by-IsUnique (survives prune) s.rows u)
      | inr off ↦ rw off u
    ]

module _ (sha256 : Bytes → String) (gzip : Bytes → Bytes) (gunzip : Bytes → Option Bytes) where
  apply-IsUnique :
      (x : Event) (s : VersionStore)
      → IsUnique s.rows
      → IsUnique (apply sha256 gzip gunzip x s).rows
  unfolding apply set_pinned sweep_orphans sweep_unless
  apply-IsUnique (captures input mtime now fails) s u =
      capture-IsUnique sha256 gzip gunzip input mtime now fails s u
  apply-IsUnique (captures_buffer input c mtime now fails) s u =
      capture_buffer-IsUnique sha256 gzip gunzip input c mtime now fails s u
  apply-IsUnique (restores id resolve target mtime now fails) s u =
      restore-IsUnique sha256 gzip gunzip id resolve target mtime now fails s u
  apply-IsUnique (deletes id) s u = delete-IsUnique id s u
  apply-IsUnique (pins id b) s u = pin-IsUnique id b s.rows u
  apply-IsUnique (cleans config conflicts now share_id) s u =
      run-IsUnique config conflicts now share_id s u
  apply-IsUnique sweeps s u = u
  apply-IsUnique (stores c) s u = u
  apply-IsUnique (crashes c) s u = u
  apply-IsUnique (writes path c) s u = u

  pub apply_all-IsUnique :
      (xs : List Event) (s : VersionStore)
      → IsUnique s.rows
      → IsUnique (apply_all sha256 gzip gunzip xs s).rows
  unfolding apply_all
  apply_all-IsUnique [] s u = u
  apply_all-IsUnique (x ∷ xs) s u =
      apply_all-IsUnique xs (apply sha256 gzip gunzip x s) (apply-IsUnique x s u)

  -- After any history, a pass of the enabled cleanup leaves exactly the rows that its plan does not prune,
  -- and of each that goes, which is neither pinned nor referenced by a conflict, it leaves a version of
  -- the same file that is at least as new and that nothing protects.
  pub history_spares :
      (threshold : ℕ) (xs : List Event) (config : VersioningConfig) (conflicts : List (Option ℕ))
      (now : ℕ) (share_id : Option ℕ)
      → config.enabled ≡ true
      → let s = apply_all sha256 gzip gunzip xs (new_store threshold) in
        let plan = (dry_run config conflicts now share_id s).plan in
        let s' = (run config conflicts now share_id s).0 in
        (s'.rows ≡ filter_by (survives plan.prune) s.rows)
        × All
            (IsOutdone (input_for config conflicts now (all_for_share share_id s)) s'.rows)
            plan.prune
  history_spares threshold xs config conflicts now share_id on =
      run_spares config conflicts now share_id
        (apply_all sha256 gzip gunzip xs (new_store threshold))
        (apply_all-IsUnique xs (new_store threshold) (λ id. omega arith)) on
