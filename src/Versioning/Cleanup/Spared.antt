-- ===== src/Versioning/Cleanup/Spared.antt =====
-- What a pass of backend/versioning/cleanup.ts spares.
use mathlib.Core.List.{Perm, Permᴰ, Mem, Memᴰ}
use mathlib.Core.List.Perm
use mathlib.Core.Logic.{∥∥₁_elim, ∥∥₁_map}
use cnc_network_bridge.Base.{
  ℕ, ◌≤◌, ◌≡◌, refl, ◌∙◌, Bool, true, false, List, [], ◌∷◌, ◌++◌, if◌then◌else◌, filter_by, map,
  arith, inl, inr, Bool-cases, All, subst,
}
use cnc_network_bridge.Versioning.Retention.{
  FileVersion, RetentionInput, PruneDecision, plan_retention, is_protected,
}
use cnc_network_bridge.Versioning.Retention.Rules.{
  IsNewer, Justified, AgeHolds, plan_retention-Justified,
}
use cnc_network_bridge.Versioning.Retention.Partition.{plan_retention-perm}
use cnc_network_bridge.Versioning.Cleanup.{survives, is_doomed}
use cnc_network_bridge.Versioning.VersionStore.Unique.{
  count, IsUnique, filter_by-IsUnique, count-append, count_member,
}

pub count_permᴰ : (id : ℕ) {xs ys : List FileVersion} → Permᴰ xs ys → count id xs ≡ count id ys
count_permᴰ id Permᴰ.nil = refl
count_permᴰ id (Permᴰ.cons {a} {b} e p) = rw (e, count_permᴰ id p) refl
count_permᴰ id (Permᴰ.swap e f) = rw (e, f) (ground arith)
count_permᴰ id (Permᴰ.trans p q) = count_permᴰ id p ∙ count_permᴰ id q

pub member_perm : (v : FileVersion) {xs ys : List FileVersion} → Permᴰ xs ys → Memᴰ v xs → Memᴰ v ys
member_perm v Permᴰ.nil m = m
member_perm v (Permᴰ.cons e p) (Memᴰ.head f) = Memᴰ.head (f ∙ e)
member_perm v (Permᴰ.cons e p) (Memᴰ.tail m) = Memᴰ.tail (member_perm v p m)
member_perm v (Permᴰ.swap e f) (Memᴰ.head g) = Memᴰ.tail (Memᴰ.head (g ∙ e))
member_perm v (Permᴰ.swap e f) (Memᴰ.tail (Memᴰ.head g)) = Memᴰ.head (g ∙ f)
member_perm v (Permᴰ.swap e f) (Memᴰ.tail (Memᴰ.tail m)) = Memᴰ.tail (Memᴰ.tail m)
member_perm v (Permᴰ.trans p q) m = member_perm v q (member_perm v p m)

count_perm : (id : ℕ) {xs ys : List FileVersion} → Perm xs ys → count id xs ≡ count id ys
count_perm id {xs} {ys} p = ∥∥₁_elim p (hlevel) (λ d. count_permᴰ id d)

doomed_count :
    (v : FileVersion) (ds : List PruneDecision)
    → is_doomed ds v ≡ true
    → 1 ≤ count v.id (map (λ (d : PruneDecision). d.version) ds)
doomed_count v [] e = absurd (cc)
doomed_count v (d ∷ ds) e = ground (arith, doomed_count v ds, e)

-- What is kept has no id of what is pruned.
kept_survives :
    (v : FileVersion) (keep : List FileVersion) (ds : List PruneDecision)
    → IsUnique (keep ++ map (λ (d : PruneDecision). d.version) ds)
    → Memᴰ v keep
    → survives ds v ≡ true
kept_survives v keep ds u m = ground (
  arith,
  u v.id,
  doomed_count v ds,
  count_member v keep m,
  count-append v.id keep (map (λ (d : PruneDecision). d.version) ds),
)

mem-filter_by :
    (p : FileVersion → Bool) (v : FileVersion) (xs : List FileVersion)
    → p v ≡ true
    → Memᴰ v xs
    → Memᴰ v (filter_by p xs)
mem-filter_by p v [] e m = elim m [ ]
mem-filter_by p v (w ∷ ws) e (Memᴰ.head f) = rw (subst (λ z. p z ≡ true) f e) (Memᴰ.head f)
mem-filter_by p v (w ∷ ws) e (Memᴰ.tail m) = elim (Bool-cases (p w)) [
  | inl on ↦ rw on (Memᴰ.tail (mem-filter_by p v ws e m))
  | inr off ↦ rw off (mem-filter_by p v ws e m)
]

of_filter_by :
    (p : FileVersion → Bool) (v : FileVersion) (xs : List FileVersion)
    → Memᴰ v (filter_by p xs)
    → Memᴰ v xs
of_filter_by p v [] m = elim m [ ]
of_filter_by p v (w ∷ ws) m = elim (Bool-cases (p w)) [
  | inl on ↦
      elim (subst (λ (b : Bool). Memᴰ v (if b then w ∷ filter_by p ws else filter_by p ws)) on m) [
        | Memᴰ.head e ↦ Memᴰ.head e
        | Memᴰ.tail n ↦ Memᴰ.tail (of_filter_by p v ws n)
      ]
  | inr off ↦ Memᴰ.tail (
      of_filter_by p v ws
        (subst (λ (b : Bool). Memᴰ v (if b then w ∷ filter_by p ws else filter_by p ws)) off m))
]

mem-append_left : (v : FileVersion) (xs ys : List FileVersion) → Memᴰ v xs → Memᴰ v (xs ++ ys)
mem-append_left v [] ys m = elim m [ ]
mem-append_left v (x ∷ xs) ys (Memᴰ.head e) = Memᴰ.head e
mem-append_left v (x ∷ xs) ys (Memᴰ.tail m) = Memᴰ.tail (mem-append_left v xs ys m)

pub mem-append_right : (v : FileVersion) (xs ys : List FileVersion) → Memᴰ v ys → Memᴰ v (xs ++ ys)
mem-append_right v [] ys m = m
mem-append_right v (x ∷ xs) ys m = Memᴰ.tail (mem-append_right v xs ys m)

-- Of the rest, a version of the same file that is at least as new, and that nothing protects.
abbrev pub IsOutdone : RetentionInput → List FileVersion → PruneDecision → Type 0
IsOutdone i rows d =
    (is_protected i d.version ≡ false)
    × AgeHolds i d.version d.reason
    × ((w : FileVersion) × Mem w rows × (is_protected i w ≡ false) × IsNewer w d.version)

Justified-IsOutdone :
    (i : RetentionInput) (keep rows : List FileVersion) (ds : List PruneDecision)
    → ((w : FileVersion) → Memᴰ w keep → Mem w rows)
    → All (Justified i keep) ds
    → All (IsOutdone i rows) ds
Justified-IsOutdone i keep rows [] f h = tt
Justified-IsOutdone i keep rows (d ∷ ds) f ((p, r, (w, m, q, n)), h) =
    ((p, r, (w, f w m, q, n)), Justified-IsOutdone i keep rows ds f h)

-- What a plan keeps of some of the rows stays when what it prunes goes.
pub plan_spares :
    (p : FileVersion → Bool) (i : RetentionInput) (rows : List FileVersion)
    → i.versions ≡ filter_by p rows
    → IsUnique rows
    → All
        (IsOutdone i (filter_by (survives (plan_retention i).prune) rows))
        (plan_retention i).prune
plan_spares p i rows e u =
    let plan = plan_retention i in
    let all = plan.keep ++ map (λ (d : PruneDecision). d.version) plan.prune in
    let perm = plan_retention-perm i in
    let unique : IsUnique all = λ id. rw (count_perm id perm, e) (filter_by-IsUnique p rows u id) in
    Justified-IsOutdone i plan.keep _ plan.prune
      (λ w m.
        ∥∥₁_map {B = Memᴰ w (filter_by (survives plan.prune) rows)}
          (subst (Mem w) e ((Perm.mem_iff perm).0 ∣ mem-append_left w _ _ m ∣₁))
          (λ n.
            mem-filter_by (survives plan.prune) w rows
              (kept_survives w plan.keep plan.prune unique m) (of_filter_by p w rows n)))
      (plan_retention-Justified i)
