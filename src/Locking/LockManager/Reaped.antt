-- ===== src/Locking/LockManager/Reaped.antt =====
-- The holders of the files while the locks past their time are ended, in backend/locking/lock-manager.ts.
use cnc_network_bridge.Base.{
  ℕ, String, ◌≡◌, refl, sym, ◌∙◌, Bool, true, false, ◌&&◌, Option, none, some, List, [], ◌∷◌, ◌==◌,
  leb, if◌then◌else◌, arith, inl, inr, Bool-cases, Option-cases, subst, ==_iff,
}
use cnc_network_bridge.Locking.LockManager.Rows.{LockRow, is_active, is_on}
use cnc_network_bridge.Locking.LockManager.{stale, has_passed}
use cnc_network_bridge.Locking.LockManager.View.{
  Holder, holder_of, view, drop, view-here, view-past, view-nil,
}
use cnc_network_bridge.Locking.LockManager.Ids.{has_id, Distinct}

abbrev is_over : ℕ → Option ℕ → Bool
is_over now none = false
is_over now (some at) = leb at now

-- A lock that is past its time has no holder.
abbrev pub drop_past : ℕ → Option Holder → Option Holder
drop_past now none = none
drop_past now (some h) = if is_over now h.expires_at then none else some h

has_passed-is_over : (now : ℕ) (e : Option ℕ) → has_passed now e ≡ is_over now e
has_passed-is_over now none = refl
has_passed-is_over now (some at) = refl

abbrev pub drop_all : List LockRow → Option Holder → Option Holder
drop_all [] o = o
drop_all (l ∷ ls) o = drop_all ls (drop l.id o)

drop_all-none : (ls : List LockRow) → drop_all ls none ≡ none
drop_all-none [] = refl
drop_all-none (l ∷ ls) = drop_all-none ls

drop_all-some :
    (ls : List LockRow) (h : Holder)
    → drop_all ls (some h) ≡ (if has_id h.id ls then none else some h)
drop_all-some [] h = refl
drop_all-some (l ∷ ls) h = elim (Bool-cases (h.id == l.id)) [
  | inl this ↦ rw (this, drop_all-none ls) (ground arith)
  | inr other ↦ rw (other, drop_all-some ls h) (ground arith)
]

has_id-stale :
    (now id : ℕ) (rs : List LockRow) → has_id id rs ≡ false → has_id id (stale now rs) ≡ false
unfolding stale
has_id-stale now id [] e = refl
has_id-stale now id (r ∷ rs) e = ground (arith, has_id-stale now id rs)

same_holder : (r : LockRow) (h : Holder) → some (holder_of r) ≡ some h → holder_of r ≡ h
same_holder r h e = cc e

has_id-view :
    (k : ℕ) (p : String) (rs : List LockRow) (h : Holder)
    → view k p rs ≡ some h
    → has_id h.id rs ≡ true
has_id-view k p [] h e = absurd (let no : none ≡ some h = sym (view-nil k p) ∙ e in cc no)
has_id-view k p (r ∷ rs) h e = elim (Bool-cases (is_on k p r && is_active r)) [
  | inl live ↦
      subst (λ x. has_id x.id (r ∷ rs) ≡ true) (same_holder r h (sym (view-here k p r rs live) ∙ e))
        (ground arith)
  | inr dead ↦
      let rest = has_id-view k p rs h (sym (view-past k p r rs dead) ∙ e) in ground (arith, rest)
]

-- The holder is the only lock with its id.
holder_here :
    (k : ℕ) (p : String) (now : ℕ) (r : LockRow) (rs : List LockRow)
    → (is_on k p r && is_active r) ≡ true
    → has_id r.id rs ≡ false
    → has_id r.id (stale now (r ∷ rs)) ≡ has_passed now r.expires_at
unfolding stale
holder_here k p now r rs live alone =
    let others = has_id-stale now r.id rs alone in
    let active : is_active r ≡ true = ground arith in
    elim (Bool-cases (has_passed now r.expires_at)) [
      | inl over ↦ rw (active, over) (ground arith)
      | inr in_time ↦ rw (active, in_time) others
    ]

not_id :
    (id : ℕ) (r : LockRow) (rs : List LockRow)
    → has_id r.id rs ≡ false
    → has_id id rs ≡ true
    → (r.id == id) ≡ false
not_id id r rs a b = elim (Bool-cases (r.id == id)) [
  | inl same ↦ absurd (
      let both : has_id id rs ≡ false =
        subst (λ i. has_id i rs ≡ false) ((==_iff r.id id).0 same) a in
      cc both)
  | inr differs ↦ differs
]

stale-past :
    (now id : ℕ) (r : LockRow) (rs : List LockRow)
    → (r.id == id) ≡ false
    → has_id id (stale now (r ∷ rs)) ≡ has_id id (stale now rs)
unfolding stale
stale-past now id r rs e = elim (Bool-cases (is_active r && has_passed now r.expires_at)) [
  | inl over ↦ rw (over, e) refl
  | inr kept ↦ rw kept refl
]

stale-holder :
    (k : ℕ) (p : String) (now : ℕ) (rs : List LockRow) (h : Holder)
    → Distinct rs
    → view k p rs ≡ some h
    → has_id h.id (stale now rs) ≡ has_passed now h.expires_at
unfolding stale
stale-holder k p now [] h d e = absurd (let no : none ≡ some h = sym (view-nil k p) ∙ e in cc no)
stale-holder k p now (r ∷ rs) h (a, d) e = elim (Bool-cases (is_on k p r && is_active r)) [
  | inl live ↦
      subst (λ x. has_id x.id (stale now (r ∷ rs)) ≡ has_passed now x.expires_at)
        (same_holder r h (sym (view-here k p r rs live) ∙ e)) (holder_here k p now r rs live a)
  | inr dead ↦
      let later = sym (view-past k p r rs dead) ∙ e in
      stale-past now h.id r rs (not_id h.id r rs a (has_id-view k p rs h later))
      ∙ stale-holder k p now rs h d later
]

pub drop_all-stale :
    (k : ℕ) (p : String) (now : ℕ) (rs : List LockRow)
    → Distinct rs
    → drop_all (stale now rs) (view k p rs) ≡ drop_past now (view k p rs)
drop_all-stale k p now rs d = elim (Option-cases (view k p rs)) [
  | inl nobody ↦ rw nobody (drop_all-none (stale now rs))
  | inr (h, e) ↦ rw e (
      drop_all-some (stale now rs) h
      ∙ rw (stale-holder k p now rs h d e, has_passed-is_over now h.expires_at) refl)
]
