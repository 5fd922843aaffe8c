-- ===== src/Versioning/Cleanup/Freed.antt =====
-- The bytes that a pass of backend/versioning/cleanup.ts reports, against the estimate of a dry run.
use mathlib.Core.List.{Permᴰ, Memᴰ}
use mathlib.Core.Logic.{∥∥₁_elim}
use mathlib.Core.Option.{some_inj}
use cnc_network_bridge.Base.{
  ℕ, ◌+◌, ◌≤◌, String, ◌≡◌, refl, sym, ap, ◌∙◌, Bool, true, false, not, ◌||◌, Option, none, some,
  List, [], ◌∷◌, ◌++◌, ◌==◌, if◌then◌else◌, filter_by, map, arith, inl, inr, Bool-cases, All, subst,
  str_eq,
}
use cnc_network_bridge.Versioning.Retention.{FileVersion, PruneDecision, plan_retention}
use cnc_network_bridge.Versioning.Retention.Partition.{plan_retention-perm}
use cnc_network_bridge.Versioning.BlobStore.Coding.{Coding}
use cnc_network_bridge.Versioning.BlobStore.Stored.{delete_present}
use cnc_network_bridge.Versioning.VersionStore.{
  VersionStore, ok, delete, delete_row, unlink_blob, find_version, is_other, all_for_share,
}
use cnc_network_bridge.Versioning.VersionStore.Backed.{IsWell, delete-IsWell}
use cnc_network_bridge.Versioning.VersionStore.Written.{IsBacked-row}
use cnc_network_bridge.Versioning.VersionStore.Unique.{
  IsUnique, count, count-append, count_member, filter_by-IsUnique,
}
use cnc_network_bridge.Versioning.Cleanup.{
  VersioningConfig, cites, survives, delete_all, run, dry_run, input_for, count_deletion,
  CleanupReport, sum_sizes, freed_hashes,
}
use cnc_network_bridge.Versioning.Cleanup.Rows.{survives_none, delete-rows, filter_survivors}
use cnc_network_bridge.Versioning.Cleanup.Spared.{member_perm, count_permᴰ, mem-append_right}
use cnc_network_bridge.Versioning.Cleanup.Estimate.{occurs, last_sum, HasSizes, estimate-last_sum}

abbrev versions : List PruneDecision → List FileVersion
versions ds = map (λ (d : PruneDecision). d.version) ds

-- Every decision is about a row.
abbrev Planned : List PruneDecision → List FileVersion → Type 0
Planned ds rows = All (λ (d : PruneDecision). find_version d.version.id rows ≡ some d.version) ds

find_version-other :
    (i j : ℕ) (rows : List FileVersion)
    → (j == i) ≡ false
    → find_version i (filter_by (is_other j) rows) ≡ find_version i rows
unfolding find_version
find_version-other i j [] e = refl
find_version-other i j (v ∷ vs) e = ground (arith, e, find_version-other i j vs e)

Planned-other :
    (j : ℕ) (ds : List PruneDecision) (rows : List FileVersion)
    → count j (versions ds) ≡ 0
    → Planned ds rows
    → Planned ds (filter_by (is_other j) rows)
Planned-other j [] rows c p = tt
Planned-other j (d ∷ ds) rows c (p, ps) =
    let apart : (j == d.version.id) ≡ false = ground (arith, c) in
    let fewer : count j (versions ds) ≡ 0 = ground (arith, c) in
    (find_version-other d.version.id j rows apart ∙ p, Planned-other j ds rows fewer ps)

count_none :
    (id : ℕ) (rows : List FileVersion) → count id rows ≡ 0 → filter_by (is_other id) rows ≡ rows
count_none id [] e = refl
count_none id (v ∷ vs) e = ground (arith, e, count_none id vs)

-- A row that goes takes at most one citation with it.
cites_other :
    (id : ℕ) (rows : List FileVersion) (v : FileVersion) (h : String)
    → find_version id rows ≡ some v
    → count id rows ≤ 1
    → cites rows h ≡ cites (filter_by (is_other id) rows) h || str_eq v.hash h
unfolding find_version
cites_other id [] v h e c = absurd (cc)
cites_other id (w ∷ ws) v h e c = elim (Bool-cases (w.id == id)) [
  | inl here ↦
      let same : some w ≡ some v = sym (rw here refl) ∙ e in
      let once : count id ws ≡ 0 = ground (arith, c, here) in
      rw (here, count_none id ws once, ← some_inj.0 same) (ground arith)
  | inr other ↦
      let rest : find_version id ws ≡ some v = sym (rw other refl) ∙ e in
      let fewer : count id ws ≤ 1 = ground (arith, c, other) in
      rw (other, cites_other id ws v h rest fewer) (ground arith)
]

cites-Planned :
    (ds : List PruneDecision) (rows : List FileVersion) (h : String)
    → Planned ds rows
    → IsUnique (versions ds)
    → IsUnique rows
    → cites rows h ≡ cites (filter_by (survives ds) rows) h || occurs h ds
cites-Planned [] rows h p q u = rw (survives_none rows) (ground arith)
cites-Planned (d ∷ ds) rows h (p, ps) q u =
    let id = d.version.id in
    let rest =
      cites-Planned ds (filter_by (is_other id) rows) h
        (Planned-other id ds rows (ground (arith, q id)) ps) (λ i. ground (arith, q i))
        (filter_by-IsUnique (is_other id) rows u) in
    rw (cites_other id rows d.version h p (u id), rest, filter_survivors d ds rows) (ground arith)

turned : (b : Bool) (n : ℕ) → (if not b then n else 0) ≡ (if b then 0 else n)
turned true n = refl
turned false n = refl

module _ (k : Coding) where
  delete_answer :
      (id : ℕ) (v : FileVersion) (s : VersionStore)
      → IsWell k s
      → find_version id s.rows ≡ some v
      → (delete id s).1 ≡ ok (not (cites (filter_by (is_other v.id) s.rows) v.hash))
  unfolding delete delete_row unlink_blob
  delete_answer id v s w e =
      let b = IsBacked-row k id s.blobs s.rows v e w.backed in
      let gone = delete_present k b.content v.hash s.blobs b.digest b.there in
      rw e (elim (Bool-cases (cites (filter_by (is_other v.id) s.rows) v.hash)) [
        | inl shared ↦ rw shared refl
        | inr last ↦ rw (last, gone) refl
      ])

  count_answer :
      (d : PruneDecision) (r : Bool) (report : CleanupReport)
      → (count_deletion d (ok r) report).bytes_freed
        ≡ (if r then d.version.size else 0) + report.bytes_freed
  count_answer d true report = refl
  count_answer d false report = omega arith

  delete_all-bytes :
      (ds : List PruneDecision) (s : VersionStore)
      → IsWell k s
      → Planned ds s.rows
      → IsUnique (versions ds)
      → IsUnique s.rows
      → (delete_all ds s).1.bytes_freed ≡ last_sum (filter_by (survives ds) s.rows) ds
  unfolding delete_all
  delete_all-bytes [] s w p q u = refl
  delete_all-bytes (d ∷ ds) s w (p, ps) q u =
      let id = d.version.id in
      let rest = filter_by (is_other id) s.rows in
      let s' = (delete id s).0 in
      let kept = Planned-other id ds s.rows (ground (arith, q id)) ps in
      let unique : IsUnique (versions ds) = λ i. ground (arith, q i) in
      let fewer = filter_by-IsUnique (is_other id) s.rows u in
      let later =
        delete_all-bytes ds s' (delete-IsWell k id s w) (rw (delete-rows id s) kept) unique
          (rw (delete-rows id s) fewer)
        ∙ (ap (λ r. last_sum (filter_by (survives ds) r) ds) (delete-rows id s)
            ∙ ap (λ r. last_sum r ds) (filter_survivors d ds s.rows)) in
      let cited =
        cites-Planned ds rest d.version.hash kept unique fewer
        ∙ ap (λ r. cites r d.version.hash || occurs d.version.hash ds)
            (filter_survivors d ds s.rows) in
      let all = filter_by (survives (d ∷ ds)) s.rows in
      rw (delete_answer id d.version s w p) (
        count_answer d (not (cites rest d.version.hash)) (delete_all ds s').1
        ∙ (ap (λ n. (if not (cites rest d.version.hash) then d.version.size else 0) + n) later
            ∙ (ap (λ b. (if not b then d.version.size else 0) + last_sum all ds) cited
                ∙ ap (λ n. n + last_sum all ds)
                    (turned (cites all d.version.hash || occurs d.version.hash ds)
                      d.version.size))))

  find_member :
      (v : FileVersion) (rows : List FileVersion)
      → Memᴰ v rows
      → IsUnique rows
      → find_version v.id rows ≡ some v
  unfolding find_version
  find_member v [] m u = elim m [ ]
  find_member v (w ∷ ws) (Memᴰ.head e) u = rw e (ground arith)
  find_member v (w ∷ ws) (Memᴰ.tail m) u =
      ground (arith, count_member v ws m, u v.id, find_member v ws m (λ i. ground (arith, u i)))

  -- The decisions of a plan, as members of what it is made of.
  all_Planned :
      (ds : List PruneDecision) (rows : List FileVersion)
      → ((v : FileVersion) → Memᴰ v (versions ds) → Memᴰ v rows)
      → IsUnique rows
      → Planned ds rows
  all_Planned [] rows f u = tt
  all_Planned (d ∷ ds) rows f u = (
    find_member d.version rows (f d.version (Memᴰ.head refl)) u,
    all_Planned ds rows (λ v m. f v (Memᴰ.tail m)) u,
  )

  found_size :
      (z : String → ℕ) (id : ℕ) (rows : List FileVersion) (v : FileVersion)
      → All (λ (w : FileVersion). w.size ≡ z w.hash) rows
      → find_version id rows ≡ some v
      → v.size ≡ z v.hash
  unfolding find_version
  found_size z id [] v s e = absurd (cc)
  found_size z id (w ∷ ws) v (n, s) e = elim (Bool-cases (w.id == id)) [
    | inl here ↦
        let same : some w ≡ some v = sym (rw here refl) ∙ e in
        subst (λ (x : FileVersion). x.size ≡ z x.hash) (some_inj.0 same) n
    | inr other ↦ found_size z id ws v s (sym (rw other refl) ∙ e)
  ]

  Planned-sizes :
      (z : String → ℕ) (ds : List PruneDecision) (rows : List FileVersion)
      → All (λ (w : FileVersion). w.size ≡ z w.hash) rows
      → Planned ds rows
      → HasSizes z ds
  Planned-sizes z [] rows s p = tt
  Planned-sizes z (d ∷ ds) rows s (p, ps) =
      (found_size z d.version.id rows d.version s p, Planned-sizes z ds rows s ps)

  everything : (rows : List FileVersion) → filter_by (λ v. true) rows ≡ rows
  everything [] = refl
  everything (v ∷ vs) = ap (λ r. v ∷ r) (everything vs)

  freed_as_estimated :
      (z : String → ℕ) (keep : List FileVersion) (ds : List PruneDecision) (s : VersionStore)
      → IsWell k s
      → IsUnique s.rows
      → All (λ (v : FileVersion). v.size ≡ z v.hash) s.rows
      → Permᴰ (keep ++ versions ds) s.rows
      → (delete_all ds s).1.bytes_freed
        ≡ sum_sizes (freed_hashes (filter_by (survives ds) s.rows) ds [])
  freed_as_estimated z keep ds s w u sizes perm =
      let planned =
        all_Planned ds s.rows (λ v m. member_perm v perm (mem-append_right v keep (versions ds) m))
          u in
      let unique : IsUnique (versions ds) =
        λ id. ground (arith, u id, count_permᴰ id perm, count-append id keep (versions ds)) in
      delete_all-bytes ds s w planned unique u
      ∙ sym (
          estimate-last_sum (filter_by (survives ds) s.rows) z ds
            (Planned-sizes z ds s.rows sizes planned))

  -- Over the versions of all shares, where the size goes with the digest, a pass of the enabled cleanup
  -- frees as many bytes as a dry run before it estimates.
  pub run_frees_estimate :
      (z : String → ℕ) (config : VersioningConfig) (conflicts : List (Option ℕ)) (now : ℕ)
      (s : VersionStore)
      → IsWell k s
      → IsUnique s.rows
      → All (λ (v : FileVersion). v.size ≡ z v.hash) s.rows
      → config.enabled ≡ true
      → (run config conflicts now none s).1.bytes_freed
        ≡ (dry_run config conflicts now none s).estimated_bytes_freed
  unfolding run dry_run
  run_frees_estimate z config conflicts now s w u sizes on =
      let i = input_for config conflicts now (all_for_share none s) in
      let plan = plan_retention i in
      let same = everything s.rows in
      rw on (
        ∥∥₁_elim (plan_retention-perm i) (hlevel) (λ perm.
          freed_as_estimated z plan.keep plan.prune s w u sizes
            (subst (Permᴰ (plan.keep ++ versions plan.prune)) same perm)
          ∙ ap (λ r. sum_sizes (freed_hashes (filter_by (survives plan.prune) r) plan.prune []))
              (sym same)))
