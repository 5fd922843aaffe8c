-- ===== src/Versioning/Retention/Rules.antt =====
-- The rules of backend/versioning/retention.ts: what is never pruned, and why something is.
use cnc_network_bridge.Base.{
  ℕ, ◌+◌, ◌≤◌, ◌≡◌, refl, sym, ◌∙◌, String, Bool, true, false, List, [], ◌∷◌, ◌++◌, arith, All,
  All-append,
}
use mathlib.Core.Bool.{false≢true}
use mathlib.Core.List.{Memᴰ}
use cnc_network_bridge.Versioning.Retention.Order.{
  OfFile, NewestFirst, OneFile, All-sort_versions, sort_versions-NewestFirst, group_all-OneFile,
}
use cnc_network_bridge.Versioning.Retention.{
  FileVersion, RetentionInput, PruneDecision, RetentionReason, over_count, too_old, Fate, protected,
  kept, pruned, fate, add_fate, group_all, sort_versions, walk, plan_groups, plan_retention,
  seen_after, newest_after, is_protected, is_too_old,
}

-- `w` is a version of the same file, and at least as new.
abbrev pub IsNewer : FileVersion → FileVersion → Type 0
IsNewer w v = (w.share_id ≡ v.share_id) × (w.rel_path ≡ v.rel_path) × (v.created_at ≤ w.created_at)

-- A kept version of the file that no pin or reference protects and that is at least as new.
abbrev pub HasNewerKept : RetentionInput → List FileVersion → FileVersion → Type 0
HasNewerKept i keep v = (w : FileVersion) × Memᴰ w keep × (is_protected i w ≡ false) × IsNewer w v

-- A version that is pruned for its age is too old.
abbrev pub AgeHolds : RetentionInput → FileVersion → RetentionReason → Type 0
AgeHolds i v over_count = Unit
AgeHolds i v too_old = is_too_old i v ≡ true

-- Neither pinned nor referenced, older than a kept version, and old where age is the reason.
abbrev pub Justified : RetentionInput → List FileVersion → PruneDecision → Type 0
Justified i keep d =
    (is_protected i d.version ≡ false)
    × AgeHolds i d.version d.reason
    × HasNewerKept i keep d.version

mem-append_left {ℓ} : {A : Type ℓ} {x : A} (xs ys : List A) → Memᴰ x xs → Memᴰ x (xs ++ ys)
mem-append_left [] ys m = elim m [ ]
mem-append_left (y ∷ xs) ys (Memᴰ.head e) = Memᴰ.head e
mem-append_left (y ∷ xs) ys (Memᴰ.tail m) = Memᴰ.tail (mem-append_left xs ys m)

mem-append_right {ℓ} : {A : Type ℓ} {x : A} (xs ys : List A) → Memᴰ x ys → Memᴰ x (xs ++ ys)
mem-append_right [] ys m = m
mem-append_right (y ∷ xs) ys m = Memᴰ.tail (mem-append_right xs ys m)

-- A plan stays justified while more is kept.
Grows : List FileVersion → List FileVersion → Type 0
Grows k l = (w : FileVersion) → Memᴰ w k → Memᴰ w l

Justified-Grows :
    (i : RetentionInput) (k l : List FileVersion) (ds : List PruneDecision)
    → Grows k l
    → All (Justified i k) ds
    → All (Justified i l) ds
unfolding Grows
Justified-Grows i k l [] g h = tt
Justified-Grows i k l (d ∷ ds) g ((p, r, (w, m, q, n)), h) =
    ((p, r, (w, g w m, q, n)), Justified-Grows i k l ds g h)

fate_pruned :
    (i : RetentionInput) (seen : ℕ) (newest : Bool) (v : FileVersion) (r : RetentionReason)
    → fate i seen newest v ≡ pruned r
    → (is_protected i v ≡ false) × AgeHolds i v r × (newest ≡ true)
unfolding fate
fate_pruned i seen newest v over_count e = ground arith
fate_pruned i seen newest v too_old e = ground arith

fate_kept :
    (i : RetentionInput) (seen : ℕ) (newest : Bool) (v : FileVersion)
    → fate i seen newest v ≡ kept
    → is_protected i v ≡ false
unfolding fate
fate_kept i seen newest v e = ground arith

module _ (i : RetentionInput) where
  -- One round of the loop after the newest version `w` has been kept.
  round_after :
      (seen : ℕ) (f : Fate) (w v : FileVersion) (vs keep : List FileVersion)
      → fate i seen true v ≡ f
      → is_protected i w ≡ false
      → Memᴰ w keep
      → IsNewer w v
      → ((n : ℕ) → All (Justified i keep) (walk i n true vs).0)
      → All
          (Justified i keep)
          (add_fate v f (walk i (seen_after f seen) (newest_after f true) vs)).0
  round_after seen protected w v vs keep e q m n rest = rest seen
  round_after seen kept w v vs keep e q m n rest = rest (seen + 1)
  round_after seen (pruned r) w v vs keep e q m n rest =
      let (p, reason, _) = fate_pruned i seen true v r e in ((p, reason, (w, m, q, n)), rest seen)

  -- Once the newest version is kept, the rest of the bucket is no newer.
  walk_after :
      (seen : ℕ) (w : FileVersion) (vs keep : List FileVersion)
      → is_protected i w ≡ false
      → Memᴰ w keep
      → All (IsNewer w) vs
      → All (Justified i keep) (walk i seen true vs).0
  unfolding walk
  walk_after seen w [] keep q m h = tt
  walk_after seen w (v ∷ vs) keep q m (n, h) =
      round_after seen (fate i seen true v) w v vs keep refl q m n
        (λ k. walk_after k w vs keep q m h)

  IsNewer-All :
      (v : FileVersion) (vs : List FileVersion) (s : ℕ) (p : String)
      → v.share_id ≡ s
      → v.rel_path ≡ p
      → OfFile s p vs
      → All (λ w. w.created_at ≤ v.created_at) vs
      → All (IsNewer v) vs
  IsNewer-All v [] s p a b h k = tt
  IsNewer-All v (w ∷ vs) s p a b ((c, d), h) (le, k) =
      ((a ∙ sym c, b ∙ sym d, le), IsNewer-All v vs s p a b h k)

  round_before :
      (seen : ℕ) (f : Fate) (v : FileVersion) (vs : List FileVersion)
      → fate i seen false v ≡ f
      → All (IsNewer v) vs
      → All (Justified i (walk i seen false vs).1) (walk i seen false vs).0
      → let s = add_fate v f (walk i (seen_after f seen) (newest_after f false) vs) in
        All (Justified i s.1) s.0
  unfolding Grows
  round_before seen protected v vs e n rest = Justified-Grows i _ _ _ (λ w m. Memᴰ.tail m) rest
  round_before seen kept v vs e n rest =
      walk_after (seen + 1) v vs _ (fate_kept i seen false v e) (Memᴰ.head refl) n
  round_before seen (pruned r) v vs e n rest =
      absurd (false≢true (fate_pruned i seen false v r e).2)

  -- What the loop prunes from a sorted bucket of one file is justified by what it keeps of it.
  walk-Justified :
      (seen : ℕ) (vs : List FileVersion) (s : ℕ) (p : String)
      → OfFile s p vs
      → NewestFirst vs
      → All (Justified i (walk i seen false vs).1) (walk i seen false vs).0
  unfolding walk
  walk-Justified seen [] s p h k = tt
  walk-Justified seen (v ∷ vs) s p ((a, b), h) (le, k) =
      round_before seen (fate i seen false v) v vs refl (IsNewer-All v vs s p a b h le)
        (walk-Justified seen vs s p h k)

  plan_groups-Justified :
      (gs : List (List FileVersion))
      → All OneFile gs
      → All (Justified i (plan_groups i gs).1) (plan_groups i gs).0
  unfolding plan_groups Grows
  plan_groups-Justified [] h = tt
  plan_groups-Justified (b ∷ bs) ((s, p, o), h) =
      let here = walk i 0 false (sort_versions b) in
      let there = plan_groups i bs in
      All-append _ here.0 there.0
        (Justified-Grows i here.1 _ here.0 (λ w m. mem-append_left here.1 there.1 m)
          (walk-Justified 0 (sort_versions b) s p (All-sort_versions _ b o)
            (sort_versions-NewestFirst b)))
        (Justified-Grows i there.1 _ there.0 (λ w m. mem-append_right here.1 there.1 m)
          (plan_groups-Justified bs h))

-- Whatever is pruned is neither pinned nor referenced, is past the age limit where age is the reason
-- given, and a version of the same file that is at least as new, and that nothing protects, is kept.
pub plan_retention-Justified :
    (i : RetentionInput) → All (Justified i (plan_retention i).keep) (plan_retention i).prune
unfolding plan_retention
plan_retention-Justified i =
    plan_groups-Justified i (group_all i.versions []) (group_all-OneFile i.versions [] tt)
