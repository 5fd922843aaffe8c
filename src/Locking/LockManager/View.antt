-- ===== src/Locking/LockManager/View.antt =====
-- Who holds which file, as the rows of backend/locking/lock-manager.ts say it, and how an UPDATE changes that.
use cnc_network_bridge.Base.{
  ℕ, ◌==◌, String, ◌≡◌, refl, sym, ap, ◌∙◌, true, false, ◌&&◌, Option, none, some, List, [], ◌∷◌,
  ◌++◌, if◌then◌else◌, if_branches, both_true, Bool-cases, inl, inr, is_some, str_eq, eq_iff, arith,
  ==_iff, subst,
}
use cnc_network_bridge.Locking.LockManager.Rows.{
  LockRow, LockOrigin, Update, set_released, set_projected, set_read_only, set_lost, set_row,
  apply_update, is_active, is_on, find_active, find_active_id,
}
use cnc_network_bridge.Locking.LockManager.Keeps.{is_release, is_active-apply_update}
use cnc_network_bridge.Locking.LockManager.Unique.{OneActive}

-- What the holder of a file is known by.
pub record Holder : Type 0 where
  pub id : ℕ
  pub origin : LockOrigin
  pub expires_at : Option ℕ

abbrev pub holder_of : LockRow → Holder
holder_of r = record { id = r.id; origin = r.origin; expires_at = r.expires_at }

-- The holder of a file.
pub view : ℕ → String → List LockRow → Option Holder
view k p [] = none
view k p (r ∷ rs) = if is_on k p r && is_active r then some (holder_of r) else view k p rs

abbrev pub first_of : Option Holder → Option Holder → Option Holder
first_of none b = b
first_of (some h) b = some h

-- The file has no holder once the lock of the id has ended.
abbrev pub drop : ℕ → Option Holder → Option Holder
drop id none = none
drop id (some h) = if h.id == id then none else some h

abbrev pub holder_in : Option LockRow → Option Holder
holder_in none = none
holder_in (some r) = some (holder_of r)

pub view-find_active :
    (k : ℕ) (p : String) (rs : List LockRow) → view k p rs ≡ holder_in (find_active k p rs)
unfolding view find_active
view-find_active k p [] = refl
view-find_active k p (r ∷ rs) = elim (Bool-cases (is_on k p r && is_active r)) [
  | inl here ↦ rw here refl
  | inr other ↦ rw other (view-find_active k p rs)
]

view-cons_same :
    (k : ℕ) (p : String) (r r' : LockRow) (rs rs' : List LockRow)
    → (is_on k p r' && is_active r') ≡ (is_on k p r && is_active r)
    → holder_of r' ≡ holder_of r
    → view k p rs' ≡ view k p rs
    → view k p (r' ∷ rs') ≡ view k p (r ∷ rs)
unfolding view
view-cons_same k p r r' rs rs' live held rest = rw (live, held, rest) refl

is_on-apply_update :
    (k : ℕ) (p : String) (u : Update) (r : LockRow) → is_on k p (apply_update u r) ≡ is_on k p r
is_on-apply_update k p (set_released n o) r = refl
is_on-apply_update k p (set_projected b o) r = refl
is_on-apply_update k p (set_read_only b) r = refl
is_on-apply_update k p (set_lost b) r =
    if_branches (λ (x : LockRow). is_on k p x ≡ is_on k p r) (is_active r) _ r (λ _. refl)
      (λ _. refl)

holder_of-apply_update : (u : Update) (r : LockRow) → holder_of (apply_update u r) ≡ holder_of r
holder_of-apply_update (set_released n o) r = refl
holder_of-apply_update (set_projected b o) r = refl
holder_of-apply_update (set_read_only b) r = refl
holder_of-apply_update (set_lost b) r =
    if_branches (λ (x : LockRow). holder_of x ≡ holder_of r) (is_active r) _ r (λ _. refl)
      (λ _. refl)

-- An UPDATE that ends no lock.
pub view-set_row :
    (k : ℕ) (p : String) (id : ℕ) (u : Update) (rs : List LockRow)
    → is_release u ≡ false
    → view k p (set_row id u rs) ≡ view k p rs
unfolding set_row
view-set_row k p id u [] e = refl
view-set_row k p id u (r ∷ rs) e =
    if_branches (λ (x : LockRow). view k p (x ∷ set_row id u rs) ≡ view k p (r ∷ rs)) (r.id == id) _
      r
      (λ _.
        view-cons_same k p r (apply_update u r) rs _
          (rw (is_on-apply_update k p u r, is_active-apply_update u r e) refl)
          (holder_of-apply_update u r) (view-set_row k p id u rs e))
      (λ _. view-cons_same k p r r rs _ refl refl (view-set_row k p id u rs e))

find_active-is_on :
    (k : ℕ) (p : String) (r : LockRow) (rs : List LockRow)
    → OneActive (r ∷ rs)
    → is_active r ≡ true
    → r.share_id ≡ k
    → r.rel_path ≡ p
    → is_some (find_active k p rs) ≡ false
find_active-is_on k p r rs (a, h) live share path =
    subst (λ q. is_some (find_active k q rs) ≡ false) path
      (subst (λ j. is_some (find_active j r.rel_path rs) ≡ false) share (ground arith))

no_holder : (o : Option LockRow) → is_some o ≡ false → o ≡ none
no_holder none e = refl
no_holder (some r) e = absurd (cc)

pub on_file :
    (r : LockRow) (k : ℕ) (p : String) → is_on k p r ≡ true → (r.share_id ≡ k) × (r.rel_path ≡ p)
on_file r k p on =
    let (share, path) = both_true (r.share_id == k) (str_eq r.rel_path p) on in
    ((==_iff r.share_id k).0 share, (eq_iff r.rel_path p).0 path)

-- No later row is the holder of the file of an active row.
alone :
    (k : ℕ) (p : String) (r : LockRow) (rs : List LockRow)
    → OneActive (r ∷ rs)
    → (is_on k p r && is_active r) ≡ true
    → view k p rs ≡ none
alone k p r rs one live =
    let (on, active) = both_true (is_on k p r) (is_active r) live in
    let (share, path) = on_file r k p on in
    view-find_active k p rs
    ∙ ap holder_in (no_holder _ (find_active-is_on k p r rs one active share path))

pub view-nil : (k : ℕ) (p : String) → view k p [] ≡ none
unfolding view
view-nil k p = refl

pub view-here :
    (k : ℕ) (p : String) (r : LockRow) (rs : List LockRow)
    → (is_on k p r && is_active r) ≡ true
    → view k p (r ∷ rs) ≡ some (holder_of r)
unfolding view
view-here k p r rs e = rw e refl

pub view-past :
    (k : ℕ) (p : String) (r : LockRow) (rs : List LockRow)
    → (is_on k p r && is_active r) ≡ false
    → view k p (r ∷ rs) ≡ view k p rs
unfolding view
view-past k p r rs e = rw e refl

over :
    (k : ℕ) (p : String) (at : ℕ) (why : Option String) (r : LockRow)
    → (is_on k p (apply_update (set_released at why) r)
        && is_active (apply_update (set_released at why) r))
      ≡ false
over k p at why r = ground arith

pub view-one :
    (k : ℕ) (p : String) (r : LockRow)
    → is_active r ≡ true
    → view k p (r ∷ []) ≡ (if is_on k p r then some (holder_of r) else none)
unfolding view
view-one k p r e = elim (Bool-cases (is_on k p r)) [
  | inl here ↦ rw (e, here) refl
  | inr away ↦ rw (e, away) refl
]

-- The end of a lock.
pub view-released :
    (k : ℕ) (p : String) (id at : ℕ) (why : Option String) (rs : List LockRow)
    → OneActive rs
    → view k p (set_row id (set_released at why) rs) ≡ drop id (view k p rs)
unfolding set_row
view-released k p id at why [] one = rw (view-nil k p) refl
view-released k p id at why (r ∷ rs) (a, one) =
    let rest = view-released k p id at why rs one in
    let ended = apply_update (set_released at why) r in
    let gone =
      view-past k p ended (set_row id (set_released at why) rs) (over k p at why r) ∙ rest in
    elim (Bool-cases (is_on k p r && is_active r)) [
      | inl live ↦ elim (Bool-cases (r.id == id)) [
        | inl this ↦
            rw (this, view-here k p r rs live, gone, alone k p r rs (a, one) live, this) refl
        | inr other ↦
            rw
              (
                other,
                view-here k p r rs live,
                view-here k p r (set_row id (set_released at why) rs) live,
                other,
              )
              refl
      ]
      | inr dead ↦ elim (Bool-cases (r.id == id)) [
        | inl this ↦ rw (this, view-past k p r rs dead) gone
        | inr other ↦
            rw
              (
                other,
                view-past k p r rs dead,
                view-past k p r (set_row id (set_released at why) rs) dead,
              )
              rest
      ]
    ]

pub view-append :
    (k : ℕ) (p : String) (r : LockRow) (rs : List LockRow)
    → view k p (rs ++ r ∷ []) ≡ first_of (view k p rs) (view k p (r ∷ []))
unfolding view
view-append k p r [] = refl
view-append k p r (x ∷ rs) = elim (Bool-cases (is_on k p x && is_active x)) [
  | inl live ↦ rw live refl
  | inr dead ↦ rw dead (view-append k p r rs)
]

-- The end of a lock that is over already.
pub drop_missing :
    (k : ℕ) (p : String) (id : ℕ) (rs : List LockRow)
    → find_active_id id rs ≡ none
    → drop id (view k p rs) ≡ view k p rs
unfolding find_active_id
drop_missing k p id [] e = rw (view-nil k p) refl
drop_missing k p id (r ∷ rs) e = elim (Bool-cases (r.id == id && is_active r)) [
  | inl found ↦ absurd (let here : some r ≡ none = sym (rw found refl) ∙ e in cc here)
  | inr other ↦ elim (Bool-cases (is_on k p r && is_active r)) [
    | inl live ↦
        let differs : (r.id == id) ≡ false = ground arith in
        rw (view-here k p r rs live, differs) refl
    | inr dead ↦ rw (view-past k p r rs dead) (drop_missing k p id rs (sym (rw other refl) ∙ e))
  ]
]
