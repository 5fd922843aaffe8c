-- ===== src/Versioning/Retention.antt =====
-- backend/versioning/retention.ts: which versions of the files are pruned. Ids, sizes and times in
-- seconds are natural numbers. The text that joins a share's id and a path by a NUL determines both,
-- since the decimal form of a number has no NUL; so the key of a group is the pair.
pub mod Partition
pub mod Rules
pub mod Kept
pub mod Order
mod Tests
use cnc_network_bridge.Base.{
  ℕ, zero, suc, ◌+◌, ◌*◌, String, Bool, true, false, not, ◌&&◌, ◌||◌, Option, none, some, List, [],
  ◌∷◌, ◌++◌, ltb, leb, ◌==◌, if◌then◌else◌, str_eq, any_of,
}

pub data VersionOrigin : Type 0 where
  server machine restore initial conflict_loser : VersionOrigin

pub record FileVersion : Type 0 where
  pub id : ℕ
  pub share_id : ℕ
  pub rel_path : String
  pub hash : String
  pub size : ℕ
  pub mtime : ℕ
  pub origin : VersionOrigin
  pub reason : Option String
  pub created_at : ℕ
  pub pinned : Bool

pub record RetentionPolicy : Type 0 where
  pub keep_count : ℕ
  pub keep_days : ℕ

pub record RetentionInput : Type 0 where
  pub versions : List FileVersion
  pub policy : RetentionPolicy
  pub referenced_ids : Option (List ℕ)
  pub now : ℕ

pub data RetentionReason : Type 0 where
  over_count too_old : RetentionReason

pub record PruneDecision : Type 0 where
  pub version : FileVersion
  pub reason : RetentionReason

pub record RetentionPlan : Type 0 where
  pub prune : List PruneDecision
  pub keep : List FileVersion
  pub reclaimable_bytes : ℕ

abbrev pub seconds_per_day : ℕ
seconds_per_day = 86400

pub same_file : FileVersion → FileVersion → Bool
same_file v w = v.share_id == w.share_id && str_eq v.rel_path w.rel_path

-- The map from keys to buckets, as the list of its buckets: in a bucket all have one key, and a new
-- key goes to the end.
in_bucket : FileVersion → List FileVersion → Bool
unfolding same_file
in_bucket v [] = false
in_bucket v (w ∷ ws) = same_file v w

pub add_to_groups : FileVersion → List (List FileVersion) → List (List FileVersion)
unfolding in_bucket
add_to_groups v [] = (v ∷ []) ∷ []
add_to_groups v (b ∷ bs) = if in_bucket v b then (b ++ v ∷ []) ∷ bs else b ∷ add_to_groups v bs

pub group_all : List FileVersion → List (List FileVersion) → List (List FileVersion)
unfolding add_to_groups
group_all [] groups = groups
group_all (v ∷ vs) groups = group_all vs (add_to_groups v groups)

-- Newest first, ties by id: the comparison that `sort` is given, as "stands before or beside".
pub is_before : FileVersion → FileVersion → Bool
is_before a b =
    if a.created_at == b.created_at then leb b.id a.id else ltb b.created_at a.created_at

-- `Array.prototype.sort` is stable, which determines its result; so any stable sort will do.
insert_version : FileVersion → List FileVersion → List FileVersion
unfolding is_before
insert_version v [] = v ∷ []
insert_version v (w ∷ ws) = if is_before v w then v ∷ w ∷ ws else w ∷ insert_version v ws

pub sort_versions : List FileVersion → List FileVersion
unfolding insert_version
sort_versions [] = []
sort_versions (v ∷ vs) = insert_version v (sort_versions vs)

-- What the loop does with one version.
pub data Fate : Type 0 where
  protected kept : Fate
  pruned : RetentionReason → Fate

-- `(referencedIds ?? new Set()).has(id)`
abbrev is_referenced : Option (List ℕ) → ℕ → Bool
is_referenced none id = false
is_referenced (some ids) id = any_of (λ i. i == id) ids

pub is_protected : RetentionInput → FileVersion → Bool
is_protected input v = v.pinned || is_referenced input.referenced_ids v.id

-- `createdAt < now - keepDays * 86400`, where the age rule is on.
pub is_too_old : RetentionInput → FileVersion → Bool
is_too_old input v =
    ltb 0 input.policy.keep_days
    && ltb (v.created_at + input.policy.keep_days * seconds_per_day) input.now

fate : RetentionInput → ℕ → Bool → FileVersion → Fate
fate input seen newest_kept v =
    if is_protected input v
    then protected
    else if not newest_kept
    then kept
    else if leb input.policy.keep_count seen
    then pruned over_count
    else if is_too_old input v
    then pruned too_old
    else kept

abbrev pub Split : Type 0
Split = List PruneDecision × List FileVersion

abbrev add_fate : FileVersion → Fate → Split → Split
add_fate v protected (prune, keep) = (prune, v ∷ keep)
add_fate v kept (prune, keep) = (prune, v ∷ keep)
add_fate v (pruned r) (prune, keep) = (record { version = v; reason = r } ∷ prune, keep)

-- A protected version takes no slot and is not the newest one kept.
abbrev seen_after : Fate → ℕ → ℕ
seen_after kept seen = seen + 1
seen_after _ seen = seen

abbrev newest_after : Fate → Bool → Bool
newest_after protected newest_kept = newest_kept
newest_after _ newest_kept = true

-- The loop over one bucket, newest first: `survivorsSeen`, `newestKept`.
pub walk : RetentionInput → ℕ → Bool → List FileVersion → Split
unfolding fate
walk input seen newest_kept [] = ([], [])
walk input seen newest_kept (v ∷ vs) =
    let f = fate input seen newest_kept v in
    add_fate v f (walk input (seen_after f seen) (newest_after f newest_kept) vs)

abbrev join : Split → Split → Split
join (p, k) (q, l) = (p ++ q, k ++ l)

pub plan_groups : RetentionInput → List (List FileVersion) → Split
unfolding walk sort_versions
plan_groups input [] = ([], [])
plan_groups input (b ∷ bs) = join (walk input 0 false (sort_versions b)) (plan_groups input bs)

pub total_size : List PruneDecision → ℕ
total_size [] = 0
total_size (d ∷ ds) = d.version.size + total_size ds

unfoldable pub plan_retention : RetentionInput → RetentionPlan
unfolding group_all plan_groups total_size is_protected is_too_old
plan_retention input =
    let split = plan_groups input (group_all input.versions []) in
    record { prune = split.0; keep = split.1; reclaimable_bytes = total_size split.0 }
