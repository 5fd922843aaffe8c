-- ===== src/Locking/LockManager/Outcome.antt =====
-- What a release leaves, in backend/locking/lock-manager.ts.
use cnc_network_bridge.Base.{
  ℕ, String, ◌≡◌, refl, Bool, false, not, Option, none, some, List, [], ◌∷◌, ◌==◌, or_else,
  if◌then◌else◌, is_some, any_of, filter_by, arith, inl, inr, Bool-cases, subst,
}
use cnc_network_bridge.Locking.LockManager.Rows.{
  LockRow, Update, set_released, set_projected, set_read_only, set_lost, set_row, is_active,
  find_active_id, find_row,
}
use cnc_network_bridge.Locking.LockManager.Keeps.{finish-keeps}
use cnc_network_bridge.Locking.LockManager.Projection.{
  Outside, Store, Result, ok, err, LockEventAction, change, let_go, released, force_released,
}
use cnc_network_bridge.Locking.LockManager.{
  finish, give_write_permission_back, release, clear_at, unmark, current, is_marked,
}

inactive-set_row :
    (k : ℕ) (u : Update) (id : ℕ) (rs : List LockRow)
    → is_some (find_active_id id rs) ≡ false
    → is_some (find_active_id id (set_row k u rs)) ≡ false
unfolding find_active_id set_row
inactive-set_row k u id [] h = refl
inactive-set_row k (set_released n o) id (r ∷ rs) h =
    ground (arith, inactive-set_row k (set_released n o) id rs)
inactive-set_row k (set_projected b o) id (r ∷ rs) h =
    ground (arith, inactive-set_row k (set_projected b o) id rs)
inactive-set_row k (set_read_only b) id (r ∷ rs) h =
    ground (arith, inactive-set_row k (set_read_only b) id rs)
inactive-set_row k (set_lost b) id (r ∷ rs) h =
    ground (arith, inactive-set_row k (set_lost b) id rs)

inactive-released :
    (id now : ℕ) (why : Option String) (rs : List LockRow)
    → is_some (find_active_id id (set_row id (set_released now why) rs)) ≡ false
unfolding find_active_id set_row
inactive-released id now why [] = refl
inactive-released id now why (r ∷ rs) = ground (arith, inactive-released id now why rs)

-- The row of an id, or another, is not active.
abbrev Ended : ℕ → LockRow → List LockRow → Type 0
Ended id other rs = is_active (or_else (find_row id rs) other) ≡ false

Ended-set_row :
    (id : ℕ) (other : LockRow) (k : ℕ) (u : Update) (rs : List LockRow)
    → Ended id other rs
    → Ended id other (set_row k u rs)
unfolding find_row set_row
Ended-set_row id other k u [] h = h
Ended-set_row id other k (set_released n o) (r ∷ rs) h =
    ground (arith, Ended-set_row id other k (set_released n o) rs)
Ended-set_row id other k (set_projected b o) (r ∷ rs) h =
    ground (arith, Ended-set_row id other k (set_projected b o) rs)
Ended-set_row id other k (set_read_only b) (r ∷ rs) h =
    ground (arith, Ended-set_row id other k (set_read_only b) rs)
Ended-set_row id other k (set_lost b) (r ∷ rs) h =
    ground (arith, Ended-set_row id other k (set_lost b) rs)

Ended-released :
    (id now : ℕ) (why : Option String) (other : LockRow) (rs : List LockRow)
    → is_active other ≡ false
    → Ended id other (set_row id (set_released now why) rs)
unfolding find_row set_row
Ended-released id now why other [] h = h
Ended-released id now why other (r ∷ rs) h = ground (arith, Ended-released id now why other rs)

holders-clear_at :
    (out : Outside) (m : Option String) (r : LockRow) (s : Store)
    → (clear_at out m r s).holders ≡ s.holders
holders-clear_at out none r s = refl
holders-clear_at out (some m) r s = ground arith

holders-unmark :
    (out : Outside) (m : Option String) (r : LockRow) (s : Store)
    → (unmark out m r s).holders ≡ s.holders
holders-unmark out none r s = refl
holders-unmark out (some m) r s = ground arith

holders-give :
    (out : Outside) (r : LockRow) (s : Store)
    → (give_write_permission_back out r s).holders ≡ s.holders
unfolding give_write_permission_back
holders-give out r s = ground (arith, holders-clear_at out (out.mount_of r.share_id) r s)

holders-finish :
    (out : Outside) (r : LockRow) (a : LockEventAction) (why : Option String) (now : ℕ) (s : Store)
    → (finish out r a why now s).holders ≡ filter_by (λ h. not (h == r.id)) s.holders
unfolding finish let_go
holders-finish out r a why now s =
    let ended = let_go r.id (change r.id (set_released now why) s) in
    let given = give_write_permission_back out r ended in
    elim (Bool-cases (is_marked r.server_lock_kind)) [
      | inl marked ↦
          rw
            (marked, holders-unmark out (out.mount_of r.share_id) r given, holders-give out r ended)
            refl
      | inr plain ↦ rw (plain, holders-give out r ended) refl
    ]

none_left :
    (id : ℕ) (hs : List ℕ) → any_of (λ h. h == id) (filter_by (λ h. not (h == id)) hs) ≡ false
none_left id [] = refl
none_left id (h ∷ hs) = ground (arith, none_left id hs)

find_active_id-id :
    (id : ℕ) (r : LockRow) (rs : List LockRow) → find_active_id id rs ≡ some r → r.id ≡ id
unfolding find_active_id
find_active_id-id id r [] h = ground arith
find_active_id-id id r (q ∷ rs) h = ground (arith, find_active_id-id id r rs)

-- A release that is answered with a lock: no row of the id is active, no process holds it, and the lock
-- that is returned is not active.
abbrev pub HasEnded : ℕ → Result → Type 0
HasEnded id (ok s r) =
    ((is_some (find_active_id id s.rows) ≡ false) × (any_of (λ h. h == id) s.holders ≡ false))
    × (is_active r ≡ false)
HasEnded id (err e) = ⊥

finish-ends :
    (out : Outside) (r : LockRow) (a : LockEventAction) (why : Option String) (now : ℕ) (s : Store)
    → HasEnded r.id (
        ok
          (finish out r a why now s)
          (current (record r { released_at = some now }) (finish out r a why now s)))
finish-ends out r a why now s =
    let other = record r { released_at = some now } in
    (
      (
        finish-keeps (λ rs. is_some (find_active_id r.id rs) ≡ false)
            (λ k u rs e. inactive-set_row k u r.id rs) out r a why now s
            (inactive-released r.id now why s.rows),
        rw (holders-finish out r a why now s) (none_left r.id s.holders),
      ),
      finish-keeps (Ended r.id other) (λ k u rs e. Ended-set_row r.id other k u rs) out r a why now
          s (Ended-released r.id now why other s.rows refl),
    )

-- The release of an active lock succeeds, whatever the server answers; no row of its id is active after
-- it, no process holds it, and the lock returned is released.
pub release_ends :
    (out : Outside) (id : ℕ) (why : Option String) (forced : Bool) (now : ℕ) (s : Store)
    (row : LockRow)
    → find_active_id id s.rows ≡ some row
    → HasEnded id (release out id why forced now s)
unfolding release
release_ends out id why forced now s row h =
    let action = if forced then force_released else released in
    rw (h, release)
      (subst
        (λ i. HasEnded i (
          ok (finish out row action why now s)
            (current (record row { released_at = some now }) (finish out row action why now s))))
        (find_active_id-id id row s.rows h) (finish-ends out row action why now s))
