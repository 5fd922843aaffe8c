-- ===== src/Locking/LockManager/Ids.antt =====
-- The ids of the rows of the table `locks` of backend/locking/lock-manager.ts.
use cnc_network_bridge.Base.{
  ℕ, suc, max, ◌≡◌, ◌≤◌, refl, ◌∙◌, Bool, false, List, [], ◌∷◌, ◌++◌, ◌==◌, if◌then◌else◌, any_of,
  any_of-append, if_branches, arith,
}
use cnc_network_bridge.Locking.LockManager.Rows.{
  LockRow, Update, set_released, set_projected, set_read_only, set_lost, set_row, apply_update,
  is_active, new_id,
}

abbrev pub has_id : ℕ → List LockRow → Bool
has_id id rs = any_of (λ (r : LockRow). r.id == id) rs

-- No two rows have one id.
abbrev pub Distinct : List LockRow → Type 0
Distinct [] = Unit
Distinct (r ∷ rs) = (has_id r.id rs ≡ false) × Distinct rs

id-apply_update : (u : Update) (r : LockRow) → (apply_update u r).id ≡ r.id
id-apply_update (set_released n o) r = refl
id-apply_update (set_projected b o) r = refl
id-apply_update (set_read_only b) r = refl
id-apply_update (set_lost b) r =
    if_branches (λ (x : LockRow). x.id ≡ r.id) (is_active r) _ r (λ _. refl) (λ _. refl)

id-updated :
    (id : ℕ) (u : Update) (r : LockRow) → (if r.id == id then apply_update u r else r).id ≡ r.id
id-updated id u r =
    if_branches (λ (x : LockRow). x.id ≡ r.id) (r.id == id) _ r (λ _. id-apply_update u r)
      (λ _. refl)

has_id-set_row :
    (k id : ℕ) (u : Update) (rs : List LockRow) → has_id k (set_row id u rs) ≡ has_id k rs
unfolding set_row
has_id-set_row k id u [] = refl
has_id-set_row k id u (r ∷ rs) = rw (id-updated id u r, has_id-set_row k id u rs) refl

pub Distinct-set_row :
    (id : ℕ) (u : Update) (rs : List LockRow) → Distinct rs → Distinct (set_row id u rs)
unfolding set_row
Distinct-set_row id u [] h = tt
Distinct-set_row id u (r ∷ rs) (a, h) =
    (rw (id-updated id u r, has_id-set_row r.id id u rs) a, Distinct-set_row id u rs h)

pub new_id-set_row :
    (id : ℕ) (u : Update) (rs : List LockRow) → new_id (set_row id u rs) ≡ new_id rs
unfolding set_row new_id
new_id-set_row id u [] = refl
new_id-set_row id u (r ∷ rs) = rw (id-updated id u r, new_id-set_row id u rs) refl

has_id-new : (k : ℕ) (rs : List LockRow) → new_id rs ≤ k → has_id k rs ≡ false
unfolding new_id
has_id-new k [] h = refl
has_id-new k (r ∷ rs) h = let rest = has_id-new k rs (omega arith) in ground (arith, rest)

new_id-push : (r : LockRow) (rs : List LockRow) → new_id (rs ++ r ∷ []) ≡ max (new_id rs) (suc r.id)
unfolding new_id
new_id-push r [] = omega arith
new_id-push r (x ∷ rs) = let rest = new_id-push r rs in rw rest (omega arith)

pub new_id-append :
    (r : LockRow) (rs : List LockRow) → r.id ≡ new_id rs → new_id (rs ++ r ∷ []) ≡ suc (new_id rs)
new_id-append r rs e = new_id-push r rs ∙ omega arith

Distinct-push :
    (r : LockRow) (rs : List LockRow)
    → has_id r.id rs ≡ false
    → Distinct rs
    → Distinct (rs ++ r ∷ [])
Distinct-push r [] e h = (refl, tt)
Distinct-push r (x ∷ rs) e (a, h) = (
  any_of-append (λ (y : LockRow). y.id == x.id) rs (r ∷ []) ∙ ground arith,
  Distinct-push r rs (ground arith) h,
)

pub Distinct-append :
    (r : LockRow) (rs : List LockRow) → r.id ≡ new_id rs → Distinct rs → Distinct (rs ++ r ∷ [])
Distinct-append r rs e h = Distinct-push r rs (has_id-new r.id rs (omega arith)) h
