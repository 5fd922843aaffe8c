-- ===== src/Locking/LockManager/RestartKeeps.antt =====
-- What every UPDATE of a row that ends no lock keeps is kept by the sweep and by the restoration of the locks, in
-- backend/locking/lock-manager.ts.
use cnc_network_bridge.Base.{
  ℕ, String, ◌≡◌, refl, true, false, Option, none, some, List, [], ◌∷◌, inl, inr, Bool-cases,
}
use cnc_network_bridge.Locking.LockManager.Rows.{LockRow, Update, set_projected, set_lost, set_row}
use cnc_network_bridge.Locking.LockManager.Keeps.{is_release, give-keeps, take-keeps, hold-keeps}
use cnc_network_bridge.Locking.LockManager.Projection.{Outside, Store, change, hold}
use cnc_network_bridge.Locking.LockManager.{give_write_permission_back}
use cnc_network_bridge.Locking.LockManager.Restart.{
  sweep_all, restore_all, restore_on, retaken, record_projection_loss,
}

module _ (P : List LockRow → Type 0)
    (kept : (id : ℕ) (u : Update) (rs : List LockRow)
      → is_release u ≡ false
      → P rs
      → P (set_row id u rs))
    (out : Outside) where
  pub sweep_all-keeps :
      (rows : List LockRow) (s : Store) → P s.rows → P (sweep_all out rows s).0.rows
  unfolding sweep_all
  sweep_all-keeps [] s h = h
  sweep_all-keeps (r ∷ rows) s h =
      sweep_all-keeps rows (give_write_permission_back out r s) (give-keeps P kept out r s h)

  retaken-keeps :
      (e : Option String) (m : String) (r : LockRow) (s : Store)
      → P s.rows
      → P (retaken e out m r s).0.rows
  unfolding record_projection_loss
  retaken-keeps none m r s h =
      take-keeps P kept out r.id (out.join m r.rel_path) (change r.id (set_projected true none) s)
        (kept r.id (set_projected true none) s.rows refl h)
  retaken-keeps (some e) m r s h = kept r.id (set_lost (some e)) s.rows refl h

  restore_on-keeps :
      (m : Option String) (r : LockRow) (s : Store) → P s.rows → P (restore_on m out r s).0.rows
  unfolding record_projection_loss
  restore_on-keeps none r s h = kept r.id (set_lost (some _)) s.rows refl h
  restore_on-keeps (some m) r s h = elim (Bool-cases (out.is_mounted m)) [
    | inr away ↦ rw away (kept r.id (set_lost (some _)) s.rows refl h)
    | inl mounted ↦ rw mounted (
        retaken-keeps (hold out r.id s).1 m r (hold out r.id s).0
          (rw (hold-keeps P kept out r.id s) h))
  ]

  pub restore_all-keeps :
      (rows : List LockRow) (s : Store) → P s.rows → P (restore_all out rows s).0.rows
  unfolding restore_all
  restore_all-keeps [] s h = h
  restore_all-keeps (r ∷ rows) s h =
      restore_all-keeps rows (restore_on (out.mount_of r.share_id) out r s).0
        (restore_on-keeps (out.mount_of r.share_id) r s h)
