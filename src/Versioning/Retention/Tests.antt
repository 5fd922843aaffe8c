-- ===== src/Versioning/Retention/Tests.antt =====
-- Runs of the retention plan, and its theorems on a small store.
use cnc_network_bridge.Base.{ℕ, String, ◌≡◌, refl, Bool, true, false, none, some, [], ◌∷◌, map}
use cnc_network_bridge.Versioning.Retention.{
  FileVersion, VersionOrigin, RetentionInput, PruneDecision, plan_retention,
}

abbrev version : ℕ → String → ℕ → Bool → FileVersion
version id path created pinned = record {
  id = id;
  share_id = 1;
  rel_path = path;
  hash = "h";
  size = 100;
  mtime = 0;
  origin = VersionOrigin.server;
  reason = none;
  created_at = created;
  pinned = pinned;
}

-- Two files; of A the oldest is pinned, and one version is referenced.
abbrev store : RetentionInput
store = record {
  versions =
      version 1 "A" 10 true
      ∷ version 2 "A" 20 false
      ∷ version 3 "B" 5 false
      ∷ version 4 "A" 900000 false
      ∷ version 5 "A" 1000000 false
      ∷ version 6 "A" 1000000 false
      ∷ version 7 "A" 30 false
      ∷ [];
  policy = record { keep_count = 3; keep_days = 1 };
  referenced_ids = some (7 ∷ []);
  now = 1000000;
}

pruned_ids : map (λ (d : PruneDecision). d.version.id) (plan_retention store).prune ≡ 4 ∷ 2 ∷ []
unfolding plan_retention
pruned_ids = refl

kept_ids : map (λ (v : FileVersion). v.id) (plan_retention store).keep ≡ 6 ∷ 5 ∷ 7 ∷ 1 ∷ 3 ∷ []
unfolding plan_retention
kept_ids = refl

freed : (plan_retention store).reclaimable_bytes ≡ 200
unfolding plan_retention
freed = refl
