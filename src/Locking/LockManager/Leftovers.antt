-- ===== src/Locking/LockManager/Leftovers.antt =====
-- What the sweep at the start does to a file that is locked again, in backend/locking/lock-manager.ts.
use text.Mathlib.TextPositions.{eq_refl}
use cnc_network_bridge.Base.{
  ℕ, String, ◌≡◌, refl, sym, subst, ap, ◌∙◌, true, false, ◌&&◌, not, Option, none, some, List, [],
  ◌∷◌, if_branches, both_true, Bool-cases, inl, inr, any_of, is_some, eq_iff, arith,
}
use cnc_network_bridge.Locking.ReadOnlyGuard.{Files, clear_read_only}
use cnc_network_bridge.Locking.ReadOnlyGuard.Effect.{could_write}
use cnc_network_bridge.Locking.LockManager.Rows.{LockRow, is_active, is_on, find_active}
use cnc_network_bridge.Locking.LockManager.Projection.{Outside, Store}
use cnc_network_bridge.Locking.LockManager.Keeps.{give-keeps}
use cnc_network_bridge.Locking.LockManager.View.{on_file}
use cnc_network_bridge.Locking.LockManager.Grants.{held-set_row}
use cnc_network_bridge.Locking.LockManager.{give_write_permission_back, clear_at}
use cnc_network_bridge.Locking.LockManager.Restart.{sweep_all, sweep_read_only_leftovers, leftovers}

-- Giving the permission back leaves every file that could be written so, and every file there.
clear-could_write :
    (e : String → Option String) (path t : String) (files : Files)
    → could_write (files t) ≡ true
    → could_write ((clear_read_only e path files).0 t) ≡ true
unfolding clear_read_only
clear-could_write e path t files h = ground (arith, eq_iff t path)

clear_keeps_file :
    (e : String → Option String) (path t : String) (files : Files)
    → is_some (files t) ≡ true
    → is_some ((clear_read_only e path files).0 t) ≡ true
unfolding clear_read_only
clear_keeps_file e path t files h = ground (arith, eq_iff t path)

clear_writable :
    (e : String → Option String) (t : String) (files : Files)
    → e t ≡ none
    → is_some (files t) ≡ true
    → could_write ((clear_read_only e t files).0 t) ≡ true
unfolding clear_read_only
clear_writable e t files lets there = ground (arith, eq_refl t)

listed :
    (k : ℕ) (p : String) (rows : List LockRow)
    → any_of (λ (r : LockRow). is_on k p r && not (is_active r) && r.server_read_only_applied) rows
      ≡ true
    → any_of (λ (r : LockRow). is_on k p r && r.server_read_only_applied) (leftovers rows) ≡ true
unfolding leftovers
listed k p [] e = absurd (cc)
listed k p (r ∷ rows) e = ground (arith, listed k p rows)

module _ (out : Outside) where
  module _ (P : Files → Type 0)
      (kept : (path : String) (files : Files)
        → P files
        → P (clear_read_only out.chmod_error path files).0) where
    clear_files :
        (m : Option String) (r : LockRow) (s : Store) → P s.files → P (clear_at out m r s).files
    clear_files none r s h = h
    clear_files (some mount) r s h =
        let done = kept (out.join mount r.rel_path) s.files h in
        if_branches (λ (t : Store). P t.files) (out.is_mounted mount) _ s
          (λ _.
            if_branches (λ (t : Store). P t.files)
              (clear_read_only out.chmod_error (out.join mount r.rel_path) s.files).1.ok _ _
              (λ _. done) (λ _. done))
          (λ _. h)

    give_files :
        (r : LockRow) (s : Store) → P s.files → P (give_write_permission_back out r s).files
    unfolding give_write_permission_back
    give_files r s h =
        if_branches (λ (t : Store). P t.files) r.server_read_only_applied _ s
          (λ _. clear_files (out.mount_of r.share_id) r s h) (λ _. h)

    sweep_files : (rows : List LockRow) (s : Store) → P s.files → P (sweep_all out rows s).0.files
    unfolding sweep_all
    sweep_files [] s h = h
    sweep_files (r ∷ rows) s h =
        sweep_files rows (give_write_permission_back out r s) (give_files r s h)

  module _ (k : ℕ) (p mount : String) (there : out.mount_of k ≡ some mount)
      (up : out.is_mounted mount ≡ true) (lets : out.chmod_error (out.join mount p) ≡ none) where
    clear_at_writable :
        (r : LockRow) (s : Store)
        → r.rel_path ≡ p
        → is_some (s.files (out.join mount p)) ≡ true
        → could_write ((clear_at out (some mount) r s).files (out.join mount p)) ≡ true
    clear_at_writable r s on file =
        let done =
          subst
            (λ x.
              could_write
                ((clear_read_only out.chmod_error (out.join mount x) s.files).0 (out.join mount p))
              ≡ true)
            (sym on) (clear_writable out.chmod_error (out.join mount p) s.files lets file) in
        if_branches (λ (t : Store). could_write (t.files (out.join mount p)) ≡ true)
          (out.is_mounted mount) _ s
          (λ _.
            if_branches (λ (t : Store). could_write (t.files (out.join mount p)) ≡ true)
              (clear_read_only out.chmod_error (out.join mount r.rel_path) s.files).1.ok _ _
              (λ _. done) (λ _. done))
          (λ away. absurd (cc))

    give_writable :
        (r : LockRow) (s : Store)
        → is_on k p r ≡ true
        → r.server_read_only_applied ≡ true
        → is_some (s.files (out.join mount p)) ≡ true
        → could_write ((give_write_permission_back out r s).files (out.join mount p)) ≡ true
    unfolding give_write_permission_back
    give_writable r s on flag file =
        let (share, path) = on_file r k p on in
        if_branches (λ (t : Store). could_write (t.files (out.join mount p)) ≡ true)
          r.server_read_only_applied _ s
          (λ _.
            subst (λ m. could_write ((clear_at out m r s).files (out.join mount p)) ≡ true)
              (sym (ap (out.mount_of) share ∙ there)) (clear_at_writable r s path file))
          (λ off. absurd (cc))

    sweep_writable :
        (rows : List LockRow) (s : Store)
        → any_of (λ (r : LockRow). is_on k p r && r.server_read_only_applied) rows ≡ true
        → is_some (s.files (out.join mount p)) ≡ true
        → could_write ((sweep_all out rows s).0.files (out.join mount p)) ≡ true
    unfolding sweep_all
    sweep_writable [] s some_row file = absurd (cc)
    sweep_writable (r ∷ rows) s some_row file =
        elim (Bool-cases (is_on k p r && r.server_read_only_applied)) [
          | inl here ↦
              let (on, flag) = both_true (is_on k p r) r.server_read_only_applied here in
              sweep_files (λ files. could_write (files (out.join mount p)) ≡ true)
                (λ path. clear-could_write out.chmod_error path (out.join mount p)) rows
                (give_write_permission_back out r s) (give_writable r s on flag file)
          | inr other ↦
              sweep_writable rows (give_write_permission_back out r s)
                (sym (rw other refl) ∙ some_row)
                (give_files (λ files. is_some (files (out.join mount p)) ≡ true)
                  (λ path. clear_keeps_file out.chmod_error path (out.join mount p)) r s file)
        ]

  sweep_held :
      (k : ℕ) (p : String) (rows : List LockRow) (s : Store)
      → is_some (find_active k p s.rows) ≡ true
      → is_some (find_active k p (sweep_all out rows s).0.rows) ≡ true
  unfolding sweep_all
  sweep_held k p [] s h = h
  sweep_held k p (r ∷ rows) s h =
      sweep_held k p rows (give_write_permission_back out r s)
        (give-keeps (λ rs. is_some (find_active k p rs) ≡ true) (held-set_row k p) out r s h)

  -- Take a file with a lock that is over and whose write permission was not given back. Where its share is
  -- mounted, the file is there and its mode can be changed, the sweep makes the file writable again, whether or
  -- not it has an active lock; and if it has one, it has one afterwards.
  pub sweep_unprotects :
      (k : ℕ) (p mount : String) (s : Store)
      → out.mount_of k ≡ some mount
      → out.is_mounted mount ≡ true
      → out.chmod_error (out.join mount p) ≡ none
      → is_some (s.files (out.join mount p)) ≡ true
      → any_of
          (λ (r : LockRow). is_on k p r && not (is_active r) && r.server_read_only_applied)
          s.rows
        ≡ true
      → (could_write ((sweep_read_only_leftovers out s).0.files (out.join mount p)) ≡ true)
        × ((is_some (find_active k p s.rows)
              && not (is_some (find_active k p (sweep_read_only_leftovers out s).0.rows)))
            ≡ false)
  unfolding sweep_read_only_leftovers
  sweep_unprotects k p mount s there up lets file left = (
    sweep_writable k p mount there up lets (leftovers s.rows) s (listed k p s.rows left) file,
    elim (Bool-cases (is_some (find_active k p s.rows))) [
      | inl held ↦ rw (held, sweep_held k p (leftovers s.rows) s held) refl
      | inr free ↦ rw free refl
    ],
  )
