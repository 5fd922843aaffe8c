-- ===== src/Versioning/Retention/Partition.antt =====
-- backend/versioning/retention.ts loses and invents no version: the plan is a partition.
use mathlib.Core.List.{
  Perm, perm_middle, perm_append_comm, append_assoc, map-append, flatten, append-nil,
}
use mathlib.Core.List.Perm
use cnc_network_bridge.Base.{ℕ, Bool, false, List, [], ◌∷◌, ◌++◌, map, inl, inr, Bool-cases}
use cnc_network_bridge.Versioning.Retention.{
  FileVersion, RetentionInput, PruneDecision, Split, Fate, protected, kept, pruned, fate, add_fate,
  in_bucket, add_to_groups, group_all, is_before, insert_version, sort_versions, walk, join,
  plan_groups, plan_retention, seen_after, newest_after,
}

abbrev pruned_versions : List PruneDecision → List FileVersion
pruned_versions = map (λ d. d.version)

-- The versions of a split, the kept ones first.
abbrev pub all_of : Split → List FileVersion
all_of (prune, keep) = keep ++ pruned_versions prune

swap_middle {ℓ} :
    {A : Type ℓ} (k l p q : List A) → Perm ((k ++ l) ++ (p ++ q)) ((k ++ p) ++ (l ++ q))
swap_middle k l p q =
    rw
      (
        append_assoc k l (p ++ q),
        append_assoc k p (l ++ q),
        ← append_assoc l p q,
        ← append_assoc p l q,
      )
      (Perm.append_left k (Perm.append_right q (perm_append_comm l p)))

add_to_groups-perm :
    (v : FileVersion) (gs : List (List FileVersion))
    → Perm (flatten (add_to_groups v gs)) (v ∷ flatten gs)
unfolding add_to_groups flatten
add_to_groups-perm v [] = Perm.refl _
add_to_groups-perm v (b ∷ bs) = elim (Bool-cases (in_bucket v b)) [
  | inl here ↦ rw (here, append_assoc b (v ∷ []) (flatten bs)) (perm_middle b (flatten bs))
  | inr there ↦
      rw there
        (Perm.trans (Perm.append_left b (add_to_groups-perm v bs)) (perm_middle b (flatten bs)))
]

pub group_all-perm :
    (vs : List FileVersion) (gs : List (List FileVersion))
    → Perm (flatten (group_all vs gs)) (vs ++ flatten gs)
unfolding group_all
group_all-perm [] gs = Perm.refl _
group_all-perm (v ∷ vs) gs =
    Perm.trans (group_all-perm vs (add_to_groups v gs))
      (Perm.trans (Perm.append_left vs (add_to_groups-perm v gs)) (perm_middle vs (flatten gs)))

insert_version-perm :
    (v : FileVersion) (ws : List FileVersion) → Perm (insert_version v ws) (v ∷ ws)
unfolding insert_version
insert_version-perm v [] = Perm.refl _
insert_version-perm v (w ∷ ws) = elim (Bool-cases (is_before v w)) [
  | inl first ↦ rw first (Perm.refl _)
  | inr later ↦ rw later (Perm.trans (Perm.cons w (insert_version-perm v ws)) (Perm.swap v w ws))
]

pub sort_versions-perm : (vs : List FileVersion) → Perm (sort_versions vs) vs
unfolding sort_versions
sort_versions-perm [] = Perm.refl _
sort_versions-perm (v ∷ vs) =
    Perm.trans (insert_version-perm v (sort_versions vs)) (Perm.cons v (sort_versions-perm vs))

add_fate-perm :
    (v : FileVersion) (f : Fate) (s : Split) → Perm (all_of (add_fate v f s)) (v ∷ all_of s)
add_fate-perm v protected s = Perm.refl _
add_fate-perm v kept s = Perm.refl _
add_fate-perm v (pruned r) s = perm_middle s.1 (pruned_versions s.0)

pub walk-perm :
    (i : RetentionInput) (seen : ℕ) (newest : Bool) (vs : List FileVersion)
    → Perm (all_of (walk i seen newest vs)) vs
unfolding walk
walk-perm i seen newest [] = Perm.refl _
walk-perm i seen newest (v ∷ vs) =
    let f = fate i seen newest v in
    Perm.trans (add_fate-perm v f (walk i (seen_after f seen) (newest_after f newest) vs))
      (Perm.cons v (walk-perm i (seen_after f seen) (newest_after f newest) vs))

join-perm : (s t : Split) → Perm (all_of (join s t)) (all_of s ++ all_of t)
join-perm s t = rw (map-append) (swap_middle s.1 t.1 (pruned_versions s.0) (pruned_versions t.0))

plan_groups-perm :
    (i : RetentionInput) (gs : List (List FileVersion))
    → Perm (all_of (plan_groups i gs)) (flatten gs)
unfolding plan_groups flatten
plan_groups-perm i [] = Perm.refl _
plan_groups-perm i (b ∷ bs) =
    Perm.trans (join-perm (walk i 0 false (sort_versions b)) (plan_groups i bs)) (
      Perm.append (Perm.trans (walk-perm i 0 false (sort_versions b)) (sort_versions-perm b))
        (plan_groups-perm i bs))

-- Every version is either kept or pruned, and as often as it was given.
pub plan_retention-perm :
    (i : RetentionInput)
    → Perm ((plan_retention i).keep ++ map (λ d. d.version) (plan_retention i).prune) i.versions
unfolding plan_retention flatten
plan_retention-perm i =
    Perm.trans (plan_groups-perm i (group_all i.versions []))
      (rw append-nil at (group_all-perm i.versions []))
