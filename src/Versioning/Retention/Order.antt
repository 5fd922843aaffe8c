-- ===== src/Versioning/Retention/Order.antt =====
-- The buckets of backend/versioning/retention.ts: one file each, and sorted newest first.
use cnc_network_bridge.Base.{
  ℕ, ◌≤◌, ◌≡◌, refl, String, true, List, [], ◌∷◌, ◌++◌, arith, inl, inr, Bool-cases, All,
  All-append, eq_iff,
}
use cnc_network_bridge.Versioning.Retention.{
  FileVersion, in_bucket, add_to_groups, group_all, is_before, insert_version, sort_versions,
}

-- All versions of one file, newest first.
abbrev pub OfFile : ℕ → String → List FileVersion → Type 0
OfFile s p = All (λ v. (v.share_id ≡ s) × (v.rel_path ≡ p))

abbrev pub NewestFirst : List FileVersion → Type 0
NewestFirst [] = Unit
NewestFirst (v ∷ vs) = All (λ w. w.created_at ≤ v.created_at) vs × NewestFirst vs

All-insert_version :
    (P : FileVersion → Type 0) (v : FileVersion) (ws : List FileVersion)
    → P v
    → All P ws
    → All P (insert_version v ws)
unfolding insert_version
All-insert_version P v [] p h = (p, tt)
All-insert_version P v (w ∷ ws) p (q, h) = elim (Bool-cases (is_before v w)) [
  | inl first ↦ rw first (p, (q, h))
  | inr later ↦ rw later (q, All-insert_version P v ws p h)
]

pub All-sort_versions :
    (P : FileVersion → Type 0) (vs : List FileVersion) → All P vs → All P (sort_versions vs)
unfolding sort_versions
All-sort_versions P [] h = tt
All-sort_versions P (v ∷ vs) (p, h) =
    All-insert_version P v (sort_versions vs) p (All-sort_versions P vs h)

older_than :
    (v w : FileVersion) (ws : List FileVersion)
    → w.created_at ≤ v.created_at
    → All (λ x. x.created_at ≤ w.created_at) ws
    → All (λ x. x.created_at ≤ v.created_at) ws
older_than v w [] h k = tt
older_than v w (x ∷ ws) h (p, k) = (omega arith, older_than v w ws h k)

insert_version-NewestFirst :
    (v : FileVersion) (ws : List FileVersion) → NewestFirst ws → NewestFirst (insert_version v ws)
unfolding insert_version is_before
insert_version-NewestFirst v [] h = (tt, tt)
insert_version-NewestFirst v (w ∷ ws) (k, h) = elim (Bool-cases (is_before v w)) [
  | inl first ↦
      let le : w.created_at ≤ v.created_at = ground arith in
      rw first ((le, older_than v w ws le k), (k, h))
  | inr later ↦ rw later (
    All-insert_version (λ x. x.created_at ≤ w.created_at) v ws (ground arith) k,
    insert_version-NewestFirst v ws h,
  )
]

pub sort_versions-NewestFirst : (vs : List FileVersion) → NewestFirst (sort_versions vs)
unfolding sort_versions
sort_versions-NewestFirst [] = tt
sort_versions-NewestFirst (v ∷ vs) =
    insert_version-NewestFirst v (sort_versions vs) (sort_versions-NewestFirst vs)

-- Every bucket of the grouping holds the versions of one file.
abbrev pub OneFile : List FileVersion → Type 0
OneFile b = (s : ℕ) × (p : String) × OfFile s p b

OneFile-push :
    (v : FileVersion) (b : List FileVersion)
    → in_bucket v b ≡ true
    → OneFile b
    → OneFile (b ++ v ∷ [])
unfolding in_bucket
OneFile-push v [] e h = cc
OneFile-push v (w ∷ ws) e (s, p, (same, h)) = (
  s,
  p,
  (
    same,
    All-append _ ws (v ∷ []) h ((ground arith, ground (arith, eq_iff v.rel_path w.rel_path)), tt),
  ),
)

add_to_groups-OneFile :
    (v : FileVersion) (gs : List (List FileVersion))
    → All OneFile gs
    → All OneFile (add_to_groups v gs)
unfolding add_to_groups
add_to_groups-OneFile v [] h = ((v.share_id, v.rel_path, ((refl, refl), tt)), tt)
add_to_groups-OneFile v (b ∷ bs) (o, h) = elim (Bool-cases (in_bucket v b)) [
  | inl here ↦ rw here (OneFile-push v b here o, h)
  | inr there ↦ rw there (o, add_to_groups-OneFile v bs h)
]

pub group_all-OneFile :
    (vs : List FileVersion) (gs : List (List FileVersion))
    → All OneFile gs
    → All OneFile (group_all vs gs)
unfolding group_all
group_all-OneFile [] gs h = h
group_all-OneFile (v ∷ vs) gs h = group_all-OneFile vs _ (add_to_groups-OneFile v gs h)
