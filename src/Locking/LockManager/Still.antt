-- ===== src/Locking/LockManager/Still.antt =====
-- A lock that stays active, in backend/locking/lock-manager.ts.
use cnc_network_bridge.Base.{
  ℕ, String, ◌≡◌, refl, Bool, true, false, ◌&&◌, Option, List, [], ◌∷◌, ◌++◌, ◌==◌, any_of,
  any_of-append, arith, if_branches, both_true, Bool-cases, inl, inr, ==_iff, ◌∙◌,
}
use cnc_network_bridge.Locking.LockManager.Rows.{
  LockRow, LockOrigin, machine, manual, schedule, sync, Update, set_released, set_projected,
  set_read_only, set_lost, set_row, is_active, is_on, apply_update,
}
use cnc_network_bridge.Locking.LockManager.Keeps.{is_release, is_active-apply_update}

abbrev pub same_origin : LockOrigin → LockOrigin → Bool
same_origin machine machine = true
same_origin manual manual = true
same_origin schedule schedule = true
same_origin sync sync = true
same_origin _ _ = false

-- The id, the file and the origin are those of a lock.
unfoldable pub is_same : LockRow → LockRow → Bool
is_same l r = r.id == l.id && is_on l.share_id l.rel_path r && same_origin r.origin l.origin

-- The table has an active row with the id, the file and the origin of a lock.
abbrev pub Still : LockRow → List LockRow → Type 0
Still l rs = any_of (λ (r : LockRow). is_same l r && is_active r) rs ≡ true

is_same-apply_update :
    (l : LockRow) (u : Update) (r : LockRow) → is_same l (apply_update u r) ≡ is_same l r
unfolding is_same
is_same-apply_update l (set_released n o) r = refl
is_same-apply_update l (set_projected b o) r = refl
is_same-apply_update l (set_read_only b) r = refl
is_same-apply_update l (set_lost b) r =
    if_branches (λ (x : LockRow). is_same l x ≡ is_same l r) (is_active r) _ r (λ _. refl)
      (λ _. refl)

same_id : (l r : LockRow) → is_same l r ≡ true → r.id ≡ l.id
unfolding is_same
same_id l r e = (==_iff r.id l.id).0 (both_true _ _ (both_true _ _ e).0).0

pub Still-set_row :
    (l : LockRow) (id : ℕ) (u : Update) (rs : List LockRow)
    → is_release u ≡ false
    → Still l rs
    → Still l (set_row id u rs)
unfolding set_row
Still-set_row l id u [] e h = h
Still-set_row l id u (r ∷ rs) e h =
    let keep = Still-set_row l id u rs e in
    elim (Bool-cases (r.id == id)) [
      | inl here ↦
          rw (here, is_same-apply_update l u r, is_active-apply_update u r e) (ground (arith, keep))
      | inr other ↦ rw other (ground (arith, keep))
    ]

-- The end of another lock.
pub Still-released :
    (l : LockRow) (id at : ℕ) (why : Option String) (rs : List LockRow)
    → (id == l.id) ≡ false
    → Still l rs
    → Still l (set_row id (set_released at why) rs)
unfolding set_row
Still-released l id at why [] e h = h
Still-released l id at why (r ∷ rs) e h =
    let keep = Still-released l id at why rs e in
    elim (Bool-cases (r.id == id)) [
      | inl here ↦ rw here (ground (arith, keep, same_id l r, here, e))
      | inr other ↦ rw other (ground (arith, keep))
    ]

pub Still-append : (l r : LockRow) (rs : List LockRow) → Still l rs → Still l (rs ++ r ∷ [])
Still-append l r rs h =
    any_of-append (λ (x : LockRow). is_same l x && is_active x) rs (r ∷ []) ∙ rw h refl
