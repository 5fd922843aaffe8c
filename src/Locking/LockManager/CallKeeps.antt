-- ===== src/Locking/LockManager/CallKeeps.antt =====
-- What `acquire` and `release` of backend/locking/lock-manager.ts keep, whether they succeed or fail.
use cnc_network_bridge.Base.{
  ℕ, String, ◌≡◌, sym, subst, arith, Bool, false, Option, none, some, List, [], ◌∷◌, ◌++◌,
  if◌then◌else◌, inl, inr, Bool-cases, Option-cases,
}
use cnc_network_bridge.Locking.LockManager.Rows.{
  LockRow, Update, set_released, set_row, find_active, find_active_id,
}
use cnc_network_bridge.Locking.LockManager.Keeps.{is_release, project-keeps, finish-keeps}
use cnc_network_bridge.Locking.LockManager.Projection.{
  LockingConfig, Outside, Store, AcquireLockInput, force_released, released,
}
use cnc_network_bridge.Locking.LockManager.{acquire, insert_lock, row_of, release}
use cnc_network_bridge.Locking.LockManager.Unique.{after}

found_id : (id : ℕ) (r : LockRow) (rs : List LockRow) → find_active_id id rs ≡ some r → r.id ≡ id
unfolding find_active_id
found_id id r [] e = absurd (cc)
found_id id r (x ∷ xs) e = ground (arith, found_id id r xs)

module _ (P : List LockRow → Type 0)
    (kept : (id : ℕ) (u : Update) (rs : List LockRow)
      → is_release u ≡ false
      → P rs
      → P (set_row id u rs)) where
  pub acquire-keeps :
      ((r : LockRow) (rs : List LockRow) → P rs → P (rs ++ r ∷ []))
      → (config : LockingConfig) (out : Outside) (input : AcquireLockInput) (now : ℕ) (s : Store)
      → P s.rows
      → P (after s (acquire config out input now s)).rows
  unfolding acquire insert_lock
  acquire-keeps pushed config out input now s h = elim (Bool-cases config.enabled) [
    | inr off ↦ rw off h
    | inl on ↦ elim (Option-cases (find_active input.share_id input.rel_path s.rows)) [
      | inr (r, taken) ↦ rw (on, taken, acquire) h
      | inl free ↦
          let row = row_of config input now s.rows in
          rw (on, free, acquire)
            (project-keeps P kept out row row.server_lock_kind _ (pushed row s.rows h))
    ]
  ]

  pub release-keeps :
      (out : Outside) (id : ℕ) (why : Option String) (forced : Bool) (now : ℕ) (s : Store)
      → P (set_row id (set_released now why) s.rows)
      → (find_active_id id s.rows ≡ none → P s.rows)
      → P (after s (release out id why forced now s)).rows
  unfolding release
  release-keeps out id why forced now s ended gone =
      elim (Option-cases (find_active_id id s.rows)) [
        | inl missing ↦ rw (missing, release) (gone missing)
        | inr (r, there) ↦
            rw (there, release)
              (finish-keeps P kept out r (if forced then force_released else released) why now s (
                subst (λ i. P (set_row i (set_released now why) s.rows))
                  (sym (found_id id r s.rows there)) ended))
      ]
