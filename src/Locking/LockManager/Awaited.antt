-- ===== src/Locking/LockManager/Awaited.antt =====
-- The active rows of a kind, while the locks that a statement has selected are ended one after the other, in
-- backend/locking/lock-manager.ts.
use cnc_network_bridge.Base.{
  ℕ, ◌≡◌, refl, Bool, false, ◌&&◌, not, Option, List, [], ◌∷◌, ◌==◌, String, any_of, filter_by,
  arith, inl, inr, Bool-cases, subst,
}
use cnc_network_bridge.Locking.LockManager.Rows.{
  LockRow, Update, set_released, set_projected, set_read_only, set_lost, set_row, is_active,
  apply_update,
}

-- A test on what no UPDATE changes.
module _ (q : LockRow → Bool) (same : (u : Update) (r : LockRow) → q (apply_update u r) ≡ q r) where
  abbrev pub selected : List LockRow → List LockRow
  selected rows = filter_by (λ (r : LockRow). is_active r && q r) rows

  -- Every active row of the kind has one of the ids.
  abbrev pub Awaited : List LockRow → List LockRow → Type 0
  Awaited ls [] = Unit
  Awaited ls (r ∷ rs) =
      ((is_active r && q r && not (any_of (λ (l : LockRow). l.id == r.id) ls)) ≡ false)
      × Awaited ls rs

  pub Awaited-set_row :
      (k : ℕ) (u : Update) (ls rs : List LockRow) → Awaited ls rs → Awaited ls (set_row k u rs)
  unfolding set_row
  Awaited-set_row k u ls [] h = tt
  Awaited-set_row k (set_released n o) ls (r ∷ rs) (a, h) =
      (ground (arith, same (set_released n o) r), Awaited-set_row k (set_released n o) ls rs h)
  Awaited-set_row k (set_projected b o) ls (r ∷ rs) (a, h) =
      (ground (arith, same (set_projected b o) r), Awaited-set_row k (set_projected b o) ls rs h)
  Awaited-set_row k (set_read_only b) ls (r ∷ rs) (a, h) =
      (ground (arith, same (set_read_only b) r), Awaited-set_row k (set_read_only b) ls rs h)
  Awaited-set_row k (set_lost b) ls (r ∷ rs) (a, h) =
      (ground (arith, same (set_lost b) r), Awaited-set_row k (set_lost b) ls rs h)

  pub Awaited-released :
      (at : ℕ) (why : Option String) (l : LockRow) (ls rs : List LockRow)
      → Awaited (l ∷ ls) rs
      → Awaited ls (set_row l.id (set_released at why) rs)
  unfolding set_row
  Awaited-released at why l ls [] h = tt
  Awaited-released at why l ls (r ∷ rs) (a, h) = (ground arith, Awaited-released at why l ls rs h)

  Awaited-more : (l : LockRow) (ls rs : List LockRow) → Awaited ls rs → Awaited (l ∷ ls) rs
  Awaited-more l ls [] h = tt
  Awaited-more l ls (r ∷ rs) (a, h) = (ground arith, Awaited-more l ls rs h)

  pub Awaited-selected : (rs : List LockRow) → Awaited (selected rs) rs
  Awaited-selected [] = tt
  Awaited-selected (r ∷ rs) = elim (Bool-cases (is_active r && q r)) [
    | inl kind ↦
        subst (λ ls. Awaited ls (r ∷ rs)) {x = r ∷ selected rs} (rw kind refl)
          (ground arith, Awaited-more r (selected rs) rs (Awaited-selected rs))
    | inr other ↦
        subst (λ ls. Awaited ls (r ∷ rs)) {x = selected rs} (rw other refl)
          (ground arith, Awaited-selected rs)
  ]

  pub none_selected : (rs : List LockRow) → Awaited [] rs → selected rs ≡ []
  none_selected [] h = refl
  none_selected (r ∷ rs) (a, h) = ground (arith, none_selected rs h)
