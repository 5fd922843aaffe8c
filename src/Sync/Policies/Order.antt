-- ===== src/Sync/Policies/Order.antt =====
-- The order in which backend/sync/policies.ts has paths transferred.
use cnc_network_bridge.Base.{
  ℕ, suc, ◌≤◌, ◌<◌, String, ◌≡◌, refl, sym, ap, ◌∙◌, Bool, List, [], ◌∷◌, ◌==◌, if◌then◌else◌,
  arith, filter_by, map, inl, inr, Bool-cases, subst,
}
use cnc_network_bridge.Sync.Policies.{
  SyncPolicyEngine, Entry, goes_before, insert_entry, sort_entries, entries_from, sort_by_priority,
  priority_of,
}

module _ {ℓ} {T : Type ℓ} (urgency : T → ℕ) where
  -- The entries are numbered from here on, and know the priority of their items.
  abbrev AllFrom : ℕ → List (Entry T) → Type 0
  AllFrom i [] = Unit
  AllFrom i (x ∷ xs) = (x.priority ≡ urgency x.item) × (i ≤ x.index) × AllFrom i xs

  -- No item is more urgent than the one before it.
  abbrev IsOrdered : List (Entry T) → Type 0
  IsOrdered [] = Unit
  IsOrdered (x ∷ []) = Unit
  IsOrdered (x ∷ y ∷ ys) = (x.priority ≤ y.priority) × IsOrdered (y ∷ ys)

  insert_entry-AllFrom :
      (i : ℕ) (x : Entry T) (ys : List (Entry T))
      → x.priority ≡ urgency x.item
      → i ≤ x.index
      → AllFrom i ys
      → AllFrom i (insert_entry x ys)
  unfolding insert_entry
  insert_entry-AllFrom i x [] p k h = (p, k, tt)
  insert_entry-AllFrom i x (y ∷ ys) p k (q, l, h) = elim (Bool-cases (goes_before x y)) [
    | inl first ↦ rw first (p, k, (q, l, h))
    | inr after ↦ rw after (q, l, insert_entry-AllFrom i x ys p k h)
  ]

  weaken-AllFrom : (i : ℕ) (xs : List (Entry T)) → AllFrom (suc i) xs → AllFrom i xs
  weaken-AllFrom i [] h = tt
  weaken-AllFrom i (x ∷ xs) (p, k, h) = (p, omega (arith, k), weaken-AllFrom i xs h)

  sort_entries-AllFrom :
      (i : ℕ) (items : List T) → AllFrom i (sort_entries (entries_from urgency i items))
  unfolding sort_entries entries_from
  sort_entries-AllFrom i [] = tt
  sort_entries-AllFrom i (t ∷ ts) =
      insert_entry-AllFrom i _ _ refl (omega arith)
        (weaken-AllFrom i _ (sort_entries-AllFrom (suc i) ts))

  insert_entry-IsOrdered :
      (x : Entry T) (ys : List (Entry T)) → IsOrdered ys → IsOrdered (insert_entry x ys)
  unfolding insert_entry
  insert_entry-IsOrdered x [] h = tt
  insert_entry-IsOrdered x (y ∷ []) h = ground arith
  insert_entry-IsOrdered x (y ∷ z ∷ zs) (k, h) = ground (arith, insert_entry-IsOrdered x (z ∷ zs) h)

  sort_entries-IsOrdered : (xs : List (Entry T)) → IsOrdered (sort_entries xs)
  unfolding sort_entries
  sort_entries-IsOrdered [] = tt
  sort_entries-IsOrdered (x ∷ xs) =
      insert_entry-IsOrdered x (sort_entries xs) (sort_entries-IsOrdered xs)

  abbrev has_priority : ℕ → Entry T → Bool
  has_priority p e = e.priority == p

  -- An entry that comes before all others of its priority is the first of them where it is put.
  filter_by-insert_entry :
      (p i : ℕ) (x : Entry T) (ys : List (Entry T))
      → x.index < i
      → AllFrom i ys
      → filter_by (has_priority p) (insert_entry x ys) ≡ (
          if has_priority p x
          then x ∷ filter_by (has_priority p) ys
          else filter_by (has_priority p) ys)
  unfolding insert_entry
  filter_by-insert_entry p i x [] k h = refl
  filter_by-insert_entry p i x (y ∷ ys) k (q, l, h) =
      ground (arith, k, l, filter_by-insert_entry p i x ys k h)

  filter_by-sort_entries :
      (p i : ℕ) (items : List T)
      → filter_by (has_priority p) (sort_entries (entries_from urgency i items))
        ≡ filter_by (has_priority p) (entries_from urgency i items)
  unfolding sort_entries entries_from
  filter_by-sort_entries p i [] = refl
  filter_by-sort_entries p i (t ∷ ts) =
      let first : Entry T = record { item = t; index = i; priority = urgency t } in
      let rest = sort_entries (entries_from urgency (suc i) ts) in
      filter_by-insert_entry p (suc i) first rest (omega arith) (sort_entries-AllFrom (suc i) ts)
      ∙ ap (λ l. if urgency t == p then first ∷ l else l) (filter_by-sort_entries p (suc i) ts)

  -- No item of a list is more urgent than the one before it.
  abbrev pub IsRanked : List T → Type 0
  IsRanked [] = Unit
  IsRanked (x ∷ []) = Unit
  IsRanked (x ∷ y ∷ ys) = (urgency x ≤ urgency y) × IsRanked (y ∷ ys)

  items-IsRanked :
      (i : ℕ) (xs : List (Entry T)) → AllFrom i xs → IsOrdered xs → IsRanked (map (λ x. x.item) xs)
  items-IsRanked i [] h o = tt
  items-IsRanked i (x ∷ []) h o = tt
  items-IsRanked i (x ∷ y ∷ ys) (p, k, (q, l, h)) (le, o) = (
    subst (λ a. a ≤ urgency y.item) p (subst (λ b. x.priority ≤ b) q le),
    items-IsRanked i (y ∷ ys) (q, l, h) o,
  )

  filter_by-items :
      (p i : ℕ) (xs : List (Entry T))
      → AllFrom i xs
      → filter_by (λ t. urgency t == p) (map (λ x. x.item) xs)
        ≡ map (λ x. x.item) (filter_by (has_priority p) xs)
  filter_by-items p i [] h = refl
  filter_by-items p i (x ∷ xs) (q, k, h) = ground (arith, q, filter_by-items p i xs h)

  entries_from-AllFrom : (i : ℕ) (items : List T) → AllFrom i (entries_from urgency i items)
  unfolding entries_from
  entries_from-AllFrom i [] = tt
  entries_from-AllFrom i (t ∷ ts) =
      (refl, omega arith, weaken-AllFrom i _ (entries_from-AllFrom (suc i) ts))

  map-entries_from :
      (i : ℕ) (items : List T) → map (λ x. x.item) (entries_from urgency i items) ≡ items
  unfolding entries_from
  map-entries_from i [] = refl
  map-entries_from i (t ∷ ts) = ap (λ l. t ∷ l) (map-entries_from (suc i) ts)

module _ {ℓ} {T : Type ℓ} (e : SyncPolicyEngine) (path_of : T → String) where
  -- The number that decides when an item is synced.
  abbrev pub urgency_of : T → ℕ
  urgency_of x = priority_of e (path_of x)

  -- The items come in the order of their priorities, the lowest number first, and those of one priority
  -- are the same as in the input, as often and in the same order.
  sort_by_priority-IsRanked :
      (items : List T) (p : ℕ)
      → IsRanked urgency_of (sort_by_priority e path_of items)
        × (filter_by (λ x. urgency_of x == p) (sort_by_priority e path_of items)
            ≡ filter_by (λ x. urgency_of x == p) items)
  unfolding sort_by_priority
  sort_by_priority-IsRanked items p =
      let numbered = entries_from urgency_of 0 items in
      let sorted = sort_entries-AllFrom urgency_of 0 items in
      (
        items-IsRanked urgency_of 0 (sort_entries numbered) sorted
            (sort_entries-IsOrdered urgency_of numbered),
        filter_by-items urgency_of p 0 (sort_entries numbered) sorted
            ∙ ap (map (λ x. x.item)) (filter_by-sort_entries urgency_of p 0 items)
            ∙ sym
                (filter_by-items urgency_of p 0 numbered (entries_from-AllFrom urgency_of 0 items))
            ∙ ap (filter_by (λ x. urgency_of x == p)) (map-entries_from urgency_of 0 items),
      )
