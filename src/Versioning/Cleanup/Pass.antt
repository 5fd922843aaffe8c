-- ===== src/Versioning/Cleanup/Pass.antt =====
-- A pass of backend/versioning/cleanup.ts as a whole: the rows it leaves, and its report.
use cnc_network_bridge.Base.{
  ℕ, suc, ◌+◌, ◌≤◌, ◌≡◌, refl, sym, Bool, true, false, Option, List, [], ◌∷◌, length, filter_by,
  arith, All, subst,
}
use cnc_network_bridge.Versioning.Retention.{PruneDecision}
use cnc_network_bridge.Versioning.VersionStore.{
  VersionStore, Result, ok, err, delete, all_for_share,
}
use cnc_network_bridge.Versioning.Cleanup.{
  VersioningConfig, CleanupReport, run, dry_run, delete_all, count_deletion, survives, input_for,
}
use cnc_network_bridge.Versioning.Cleanup.Rows.{delete_all-rows}
use cnc_network_bridge.Versioning.VersionStore.Unique.{IsUnique}
use cnc_network_bridge.Versioning.Cleanup.Spared.{IsOutdone, plan_spares}

-- A pass leaves exactly the rows that are not planned for pruning, and for each that goes it leaves a
-- version of the same file that is at least as new.
pub run_spares :
    (config : VersioningConfig) (conflicts : List (Option ℕ)) (now : ℕ) (share_id : Option ℕ)
    (s : VersionStore)
    → IsUnique s.rows
    → config.enabled ≡ true
    → let plan = (dry_run config conflicts now share_id s).plan in
      let s' = (run config conflicts now share_id s).0 in
      (s'.rows ≡ filter_by (survives plan.prune) s.rows)
      × All
          (IsOutdone (input_for config conflicts now (all_for_share share_id s)) s'.rows)
          plan.prune
unfolding run dry_run
run_spares config conflicts now share_id s u on =
    let i = input_for config conflicts now (all_for_share share_id s) in
    let plan = (dry_run config conflicts now share_id s).plan in
    let rows = delete_all-rows plan.prune s in
    rw on
      (rows, subst (λ r. All (IsOutdone i r) plan.prune) (sym rows) (plan_spares _ i s.rows refl u))

-- Every deletion that the plan asks for is counted once, and no more blobs go than rows.
abbrev IsTally : ℕ → CleanupReport → Type 0
IsTally n report =
    (report.versions_deleted + length report.failures ≡ n)
    × (report.blobs_deleted ≤ report.versions_deleted)

count_deletion-IsTally :
    (d : PruneDecision) (r : Result Bool) (n : ℕ) (report : CleanupReport)
    → IsTally n report
    → IsTally (suc n) (count_deletion d r report)
count_deletion-IsTally d (err e) n report (h, k) = (omega (arith, h), k)
count_deletion-IsTally d (ok false) n report (h, k) = (omega (arith, h), omega (arith, k))
count_deletion-IsTally d (ok true) n report (h, k) = (omega (arith, h), omega (arith, k))

pub delete_all-IsTally :
    (ds : List PruneDecision) (s : VersionStore) → IsTally (length ds) (delete_all ds s).1
unfolding delete_all
delete_all-IsTally [] s = (refl, omega arith)
delete_all-IsTally (d ∷ ds) s =
    count_deletion-IsTally d (delete d.version.id s).1 (length ds) _
      (delete_all-IsTally ds (delete d.version.id s).0)
