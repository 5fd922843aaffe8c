-- ===== src/Locking/LockManager/Grants.antt =====
-- What a granted lock leaves, in backend/locking/lock-manager.ts.
use cnc_network_bridge.Base.{
  ℕ, ◌≤◌, String, ◌≡◌, refl, true, false, ◌&&◌, none, some, List, [], ◌∷◌, ◌++◌, or_else, eq_iff,
  is_some, arith,
}
use cnc_network_bridge.Locking.LockManager.Rows.{
  LockRow, Update, set_released, set_projected, set_read_only, set_lost, set_row, is_active, is_on,
  find_active, find_row, new_id,
}
use cnc_network_bridge.Locking.LockManager.Keeps.{project-keeps, is_release}
use cnc_network_bridge.Locking.LockManager.Unique.{find_active-push}
use cnc_network_bridge.Locking.LockManager.Projection.{
  LockingConfig, Outside, Store, Result, ok, err, AcquireLockInput,
}
use cnc_network_bridge.Locking.LockManager.{acquire, insert_lock, row_of, current}

module _ (k : ℕ) (p : String) where
  pub held-set_row :
      (id : ℕ) (u : Update) (rs : List LockRow)
      → is_release u ≡ false
      → is_some (find_active k p rs) ≡ true
      → is_some (find_active k p (set_row id u rs)) ≡ true
  unfolding find_active set_row
  held-set_row id u [] e h = h
  held-set_row id (set_released n o) (r ∷ rs) e h = ground arith
  held-set_row id (set_projected b o) (r ∷ rs) e h =
      ground (arith, held-set_row id (set_projected b o) rs e)
  held-set_row id (set_read_only b) (r ∷ rs) e h =
      ground (arith, held-set_row id (set_read_only b) rs e)
  held-set_row id (set_lost b) (r ∷ rs) e h = ground (arith, held-set_row id (set_lost b) rs e)

  -- The row of an id, or another, is an active lock on the file.
  abbrev Holds : ℕ → LockRow → List LockRow → Type 0
  Holds id other rs =
      (is_on k p (or_else (find_row id rs) other) && is_active (or_else (find_row id rs) other))
      ≡ true

  Holds-set_row :
      (id : ℕ) (other : LockRow) (i : ℕ) (u : Update) (rs : List LockRow)
      → is_release u ≡ false
      → Holds id other rs
      → Holds id other (set_row i u rs)
  unfolding find_row set_row
  Holds-set_row id other i u [] e h = h
  Holds-set_row id other i (set_released n o) (r ∷ rs) e h = ground arith
  Holds-set_row id other i (set_projected b o) (r ∷ rs) e h =
      ground (arith, Holds-set_row id other i (set_projected b o) rs e)
  Holds-set_row id other i (set_read_only b) (r ∷ rs) e h =
      ground (arith, Holds-set_row id other i (set_read_only b) rs e)
  Holds-set_row id other i (set_lost b) (r ∷ rs) e h =
      ground (arith, Holds-set_row id other i (set_lost b) rs e)

-- The id that is given next is no row's.
find_row-push :
    (r : LockRow) (rs : List LockRow) → new_id rs ≤ r.id → find_row r.id (rs ++ r ∷ []) ≡ some r
unfolding find_row new_id
find_row-push r [] h = ground arith
find_row-push r (q ∷ rs) h = ground (arith, find_row-push r rs)

-- A lock was returned; it is active and on the file, and the table has an active lock on the file.
abbrev pub IsGranted : ℕ → String → Result → Type 0
IsGranted k p (ok s r) =
    (is_some (find_active k p s.rows) ≡ true) × ((is_on k p r && is_active r) ≡ true)
IsGranted k p (err e) = ⊥

insert-IsGranted :
    (out : Outside) (r : LockRow) (s : Store)
    → is_active r ≡ true
    → new_id s.rows ≤ r.id
    → IsGranted r.share_id r.rel_path (ok (insert_lock out r s) (current r (insert_lock out r s)))
unfolding insert_lock
insert-IsGranted out r s live fresh =
    let k = r.share_id in
    let p = r.rel_path in
    let put = record s { rows = s.rows ++ r ∷ [] } in
    (
      project-keeps (λ rs. is_some (find_active k p rs) ≡ true) (held-set_row k p) out r
          r.server_lock_kind put (ground (arith, find_active-push k p r s.rows, eq_iff p p)),
      project-keeps (Holds k p r.id r) (Holds-set_row k p r.id r) out r r.server_lock_kind put
          (rw (find_row-push r s.rows fresh) (ground (arith, eq_iff p p))),
    )

-- Where locking is enabled and the file has no active lock, `acquire` returns an active lock on the file
-- and the table has one, whatever the server answers to the projection.
pub acquire_grants :
    (config : LockingConfig) (out : Outside) (input : AcquireLockInput) (now : ℕ) (s : Store)
    → config.enabled ≡ true
    → find_active input.share_id input.rel_path s.rows ≡ none
    → IsGranted input.share_id input.rel_path (acquire config out input now s)
unfolding acquire
acquire_grants config out input now s on free =
    rw (on, free, acquire)
      (insert-IsGranted out (row_of config input now s.rows) s refl (omega arith))
